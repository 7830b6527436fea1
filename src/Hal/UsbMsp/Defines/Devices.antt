-- ===== src/Hal/UsbMsp/Defines/Devices.antt =====
-- trikHal/src/trik/usbMsp/usbMSP430Defines.h: the addresses of devices on the microcontroller.
use trik_runtime.Prelude.{ℕ}

abbrev pub motor1 : ℕ
motor1 = 0x00

abbrev pub motor2 : ℕ
motor2 = 0x01

abbrev pub motor3 : ℕ
motor3 = 0x03

abbrev pub motor4 : ℕ
motor4 = 0x02

abbrev pub sensor1 : ℕ
sensor1 = 0x04

abbrev pub sensor2 : ℕ
sensor2 = 0x05

abbrev pub sensor3 : ℕ
sensor3 = 0x06

abbrev pub sensor4 : ℕ
sensor4 = 0x07

abbrev pub sensor5 : ℕ
sensor5 = 0x08

abbrev pub sensor6 : ℕ
sensor6 = 0x09

abbrev pub sensor7 : ℕ
sensor7 = 0x0a

abbrev pub sensor8 : ℕ
sensor8 = 0x0b

abbrev pub sensor9 : ℕ
sensor9 = 0x0c

abbrev pub sensor10 : ℕ
sensor10 = 0x0d

abbrev pub sensor11 : ℕ
sensor11 = 0x0e

abbrev pub sensor12 : ℕ
sensor12 = 0x0f

abbrev pub sensor13 : ℕ
sensor13 = 0x10

abbrev pub sensor14 : ℕ
sensor14 = 0x11

abbrev pub sensor17 : ℕ
sensor17 = 0x14

abbrev pub encoder1 : ℕ
encoder1 = 0x16

abbrev pub encoder2 : ℕ
encoder2 = 0x17

abbrev pub encoder3 : ℕ
encoder3 = 0x19

abbrev pub encoder4 : ℕ
encoder4 = 0x18

abbrev pub i2c1 : ℕ
i2c1 = 0x28

abbrev pub i2c2 : ℕ
i2c2 = 0x29

abbrev pub i2c3 : ℕ
i2c3 = 0x2a

abbrev pub i2c4 : ℕ
i2c4 = 0x2b

abbrev pub i2c5 : ℕ
i2c5 = 0x2c

abbrev pub i2c6 : ℕ
i2c6 = 0x2d

abbrev pub i2c7 : ℕ
i2c7 = 0x2e

abbrev pub spwm1 : ℕ
spwm1 = 0x2f

abbrev pub spwm2 : ℕ
spwm2 = 0x30

abbrev pub spwm3 : ℕ
spwm3 = 0x31

abbrev pub spwm4 : ℕ
spwm4 = 0x32

abbrev pub spwm5 : ℕ
spwm5 = 0x33

abbrev pub spwm6 : ℕ
spwm6 = 0x34

abbrev pub spwm7 : ℕ
spwm7 = 0x35

abbrev pub spwm8 : ℕ
spwm8 = 0x36

abbrev pub spwm9 : ℕ
spwm9 = 0x37

abbrev pub spwm10 : ℕ
spwm10 = 0x38

abbrev pub spwm11 : ℕ
spwm11 = 0x39

abbrev pub spwm12 : ℕ
spwm12 = 0x3a

abbrev pub spwm13 : ℕ
spwm13 = 0x3b

abbrev pub spwm14 : ℕ
spwm14 = 0x3c

abbrev pub usart1 : ℕ
usart1 = 0x3d

abbrev pub usart2 : ℕ
usart2 = 0x3e

abbrev pub usart3 : ℕ
usart3 = 0x3f

abbrev pub usart4 : ℕ
usart4 = 0x40

abbrev pub usart5 : ℕ
usart5 = 0x41

abbrev pub usart6 : ℕ
usart6 = 0x42

abbrev pub usart7 : ℕ
usart7 = 0x43
