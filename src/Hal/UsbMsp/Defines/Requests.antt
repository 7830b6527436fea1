-- ===== src/Hal/UsbMsp/Defines/Requests.antt =====
-- trikHal/src/trik/usbMsp/usbMSP430Defines.h: the addresses that the interface is asked for.
use trik_runtime.Prelude.{ℕ}

abbrev pub i2c_pwm_mot1 : ℕ
i2c_pwm_mot1 = 0x0010

abbrev pub i2c_pwm_mot2 : ℕ
i2c_pwm_mot2 = 0x0011

abbrev pub i2c_pwm_mot3 : ℕ
i2c_pwm_mot3 = 0x0013

abbrev pub i2c_pwm_mot4 : ℕ
i2c_pwm_mot4 = 0x0012

abbrev pub i2c_mot1 : ℕ
i2c_mot1 = 0x0014

abbrev pub i2c_mot2 : ℕ
i2c_mot2 = 0x0015

abbrev pub i2c_mot3 : ℕ
i2c_mot3 = 0x0017

abbrev pub i2c_mot4 : ℕ
i2c_mot4 = 0x0016

abbrev pub i2c_batt : ℕ
i2c_batt = 0x0026

abbrev pub i2c_sens1 : ℕ
i2c_sens1 = 0x0025

abbrev pub i2c_sens2 : ℕ
i2c_sens2 = 0x0024

abbrev pub i2c_sens3 : ℕ
i2c_sens3 = 0x0023

abbrev pub i2c_sens4 : ℕ
i2c_sens4 = 0x0022

abbrev pub i2c_sens5 : ℕ
i2c_sens5 = 0x0021

abbrev pub i2c_sens6 : ℕ
i2c_sens6 = 0x0020

abbrev pub i2c_enc1 : ℕ
i2c_enc1 = 0x0030

abbrev pub i2c_enc2 : ℕ
i2c_enc2 = 0x0031

abbrev pub i2c_enc3 : ℕ
i2c_enc3 = 0x0032

abbrev pub i2c_enc4 : ℕ
i2c_enc4 = 0x0033

abbrev pub i2c_serv1 : ℕ
i2c_serv1 = 0x003f

abbrev pub i2c_serv2 : ℕ
i2c_serv2 = 0x0040

abbrev pub i2c_serv3 : ℕ
i2c_serv3 = 0x0041

abbrev pub i2c_serv4 : ℕ
i2c_serv4 = 0x0042

abbrev pub i2c_serv5 : ℕ
i2c_serv5 = 0x0043

abbrev pub i2c_serv6 : ℕ
i2c_serv6 = 0x0044

abbrev pub i2c_serv7 : ℕ
i2c_serv7 = 0x0045

abbrev pub i2c_serv8 : ℕ
i2c_serv8 = 0x0046

abbrev pub i2c_serv9 : ℕ
i2c_serv9 = 0x0047

abbrev pub i2c_serv10 : ℕ
i2c_serv10 = 0x0048

abbrev pub i2c_serv11 : ℕ
i2c_serv11 = 0x0049

abbrev pub i2c_serv12 : ℕ
i2c_serv12 = 0x004a

abbrev pub i2c_serv13 : ℕ
i2c_serv13 = 0x004b

abbrev pub i2c_serv14 : ℕ
i2c_serv14 = 0x004c

abbrev pub i2c_temp1 : ℕ
i2c_temp1 = 0x004d

abbrev pub i2c_temp2 : ℕ
i2c_temp2 = 0x004e

abbrev pub i2c_temp3 : ℕ
i2c_temp3 = 0x004f

abbrev pub i2c_w1 : ℕ
i2c_w1 = 0x0050

abbrev pub i2c_w2 : ℕ
i2c_w2 = 0x0051

abbrev pub i2c_w3 : ℕ
i2c_w3 = 0x0052

abbrev pub i2c_w4 : ℕ
i2c_w4 = 0x0053

abbrev pub temp_dht11_1 : ℕ
temp_dht11_1 = 0x0100

abbrev pub temp_dht11_14 : ℕ
temp_dht11_14 = 0x010d

abbrev pub hum_dht11_1 : ℕ
hum_dht11_1 = 0x010e

abbrev pub hum_dht11_14 : ℕ
hum_dht11_14 = 0x011b

abbrev pub temp_dht22_1 : ℕ
temp_dht22_1 = 0x011c

abbrev pub temp_dht22_14 : ℕ
temp_dht22_14 = 0x0129

abbrev pub hum_dht22_1 : ℕ
hum_dht22_1 = 0x012a

abbrev pub hum_dht22_14 : ℕ
hum_dht22_14 = 0x0137
