-- ===== src/Hal/UsbMsp/Defines/Registers.antt =====
-- trikHal/src/trik/usbMsp/usbMSP430Defines.h: the registers of devices, their masks, the answers and the limits.
use trik_runtime.Prelude.{ℕ}

abbrev pub mmctl : ℕ
mmctl = 0x00

abbrev pub mmdut : ℕ
mmdut = 0x01

abbrev pub mmper : ℕ
mmper = 0x02

abbrev pub mot_enable : ℕ
mot_enable = 0x8000

abbrev pub mot_back : ℕ
mot_back = 0x0010

abbrev pub mot_brake : ℕ
mot_brake = 0x0008

abbrev pub mot_power : ℕ
mot_power = 0x0003

abbrev pub def_mot_per : ℕ
def_mot_per = 0x3000

abbrev pub eectl : ℕ
eectl = 0x00

abbrev pub eeval : ℕ
eeval = 0x01

abbrev pub enc_enable : ℕ
enc_enable = 0x8000

abbrev pub enc_2wires : ℕ
enc_2wires = 0x2000

abbrev pub enc_pupen : ℕ
enc_pupen = 0x1000

abbrev pub enc_fall : ℕ
enc_fall = 0x0800

abbrev pub ssctl : ℕ
ssctl = 0x00

abbrev pub ssidx : ℕ
ssidx = 0x01

abbrev pub ssval : ℕ
ssval = 0x02

abbrev pub analog_inp : ℕ
analog_inp = 0x0001

abbrev pub dhtxx_temp : ℕ
dhtxx_temp = 0x0002

abbrev pub dhtxx_hum : ℕ
dhtxx_hum = 0x0003

abbrev pub sens_enable : ℕ
sens_enable = 0x8000

abbrev pub sens_read : ℕ
sens_read = 0x0001

abbrev pub iictl : ℕ
iictl = 0x00

abbrev pub iiidx : ℕ
iiidx = 0x05

abbrev pub iival : ℕ
iival = 0x06

abbrev pub iipar : ℕ
iipar = 0x09

abbrev pub i2c_enable : ℕ
i2c_enable = 0x80

abbrev pub i2c_sens : ℕ
i2c_sens = 0x10

abbrev pub uuctl : ℕ
uuctl = 0x00

abbrev pub uuspd : ℕ
uuspd = 0x01

abbrev pub uudat : ℕ
uudat = 0x03

abbrev pub usart_en : ℕ
usart_en = 0x80000000

abbrev pub usart_8bits : ℕ
usart_8bits = 0x0c000000

abbrev pub usart_rs485 : ℕ
usart_rs485 = 0x02000000

abbrev pub usart_invrts : ℕ
usart_invrts = 0x00400000

abbrev pub usart_rxen : ℕ
usart_rxen = 0x00200000

abbrev pub usart_txen : ℕ
usart_txen = 0x00100000

abbrev pub nxttemp : ℕ
nxttemp = 0x0000

abbrev pub mcp3424_ch1 : ℕ
mcp3424_ch1 = 0x0004

abbrev pub mcp3424_gain1 : ℕ
mcp3424_gain1 = 0x0000

abbrev pub mcp3424_gain2 : ℕ
mcp3424_gain2 = 0x0001

abbrev pub mcp3424_gain4 : ℕ
mcp3424_gain4 = 0x0002

abbrev pub mcp3424_gain8 : ℕ
mcp3424_gain8 = 0x0003

abbrev pub sppctl : ℕ
sppctl = 0x00

abbrev pub sppdut : ℕ
sppdut = 0x01

abbrev pub sppper : ℕ
sppper = 0x02

abbrev pub spwm_enable : ℕ
spwm_enable = 0x8000

abbrev pub def_spwm_per : ℕ
def_spwm_per = 0x00c8

abbrev pub min_serv_duty : ℕ
min_serv_duty = 0x0007

abbrev pub max_serv_duty : ℕ
max_serv_duty = 0x0017

abbrev pub max_string_length : ℕ
max_string_length = 0x20

abbrev pub write_func : ℕ
write_func = 0x03

abbrev pub read_func : ℕ
read_func = 0x05

abbrev pub no_error : ℕ
no_error = 0x00

abbrev pub dev_addr_error : ℕ
dev_addr_error = 0x11

abbrev pub crc_error : ℕ
crc_error = 0x12

abbrev pub start_error : ℕ
start_error = 0x13

abbrev pub length_error : ℕ
length_error = 0x14

abbrev pub urm04_error : ℕ
urm04_error = 0xffffffff

abbrev pub num_byte : ℕ
num_byte = 0x02

abbrev pub num_dword : ℕ
num_dword = 0x08

abbrev pub recv_pack_len : ℕ
recv_pack_len = 0x12

abbrev pub device_error : ℕ
device_error = 0x01

abbrev pub packet_error : ℕ
packet_error = 0x02

abbrev pub time_out : ℕ
time_out = 0xffff

abbrev pub alt_nothing : ℕ
alt_nothing = 0x00

abbrev pub alt_analog : ℕ
alt_analog = 0x01

abbrev pub alt_i2c : ℕ
alt_i2c = 0x02

abbrev pub alt_servo : ℕ
alt_servo = 0x03

abbrev pub alt_enc : ℕ
alt_enc = 0x04

abbrev pub alt_usart : ℕ
alt_usart = 0x05

abbrev pub alt_dhtxx : ℕ
alt_dhtxx = 0x06
