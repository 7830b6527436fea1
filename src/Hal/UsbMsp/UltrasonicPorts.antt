-- ===== src/Hal/UsbMsp/UltrasonicPorts.antt =====
-- trikHal/src/trik/usbMsp/usbMSP430Interface.cpp: the ports of the ultrasonic sensors URM04.
use trik_runtime.Prelude.{ℕ, List, [], ◌∷◌}
use trik_runtime.Hal.UsbMsp.Defines.Devices.{usart1, usart2, usart3, usart4, usart5, usart6, usart7}

abbrev pub i2c_u1_0x11 : ℕ
i2c_u1_0x11 = 0x54

abbrev pub i2c_u7_0x20 : ℕ
i2c_u7_0x20 = 0xc3

-- The cases of the switch: an address, its port and the address of the sensor at the port.
abbrev pub urm04_cases : List (ℕ × ℕ × ℕ)
urm04_cases =
    (0x54, usart1, 0x11)
    ∷ (0x55, usart1, 0x12)
    ∷ (0x56, usart1, 0x13)
    ∷ (0x57, usart1, 0x14)
    ∷ (0x58, usart1, 0x15)
    ∷ (0x59, usart1, 0x16)
    ∷ (0x5a, usart1, 0x17)
    ∷ (0x5b, usart1, 0x18)
    ∷ (0x5c, usart1, 0x19)
    ∷ (0x5d, usart1, 0x1a)
    ∷ (0x5e, usart1, 0x1b)
    ∷ (0x5f, usart1, 0x1c)
    ∷ (0x60, usart1, 0x1d)
    ∷ (0x61, usart1, 0x1e)
    ∷ (0x62, usart1, 0x1f)
    ∷ (0x63, usart1, 0x20)
    ∷ (0x64, usart2, 0x11)
    ∷ (0x65, usart2, 0x12)
    ∷ (0x66, usart2, 0x13)
    ∷ (0x67, usart2, 0x14)
    ∷ (0x68, usart2, 0x15)
    ∷ (0x69, usart2, 0x16)
    ∷ (0x6a, usart2, 0x17)
    ∷ (0x6b, usart2, 0x18)
    ∷ (0x6c, usart2, 0x19)
    ∷ (0x6d, usart2, 0x1a)
    ∷ (0x6e, usart2, 0x1b)
    ∷ (0x6f, usart2, 0x1c)
    ∷ (0x70, usart2, 0x1d)
    ∷ (0x71, usart2, 0x1e)
    ∷ (0x72, usart2, 0x1f)
    ∷ (0x73, usart2, 0x20)
    ∷ (0x74, usart3, 0x11)
    ∷ (0x75, usart3, 0x12)
    ∷ (0x76, usart3, 0x13)
    ∷ (0x77, usart3, 0x14)
    ∷ (0x78, usart3, 0x15)
    ∷ (0x79, usart3, 0x16)
    ∷ (0x7a, usart3, 0x17)
    ∷ (0x7b, usart3, 0x18)
    ∷ (0x7c, usart3, 0x19)
    ∷ (0x7d, usart3, 0x1a)
    ∷ (0x7e, usart3, 0x1b)
    ∷ (0x7f, usart3, 0x1c)
    ∷ (0x80, usart3, 0x1d)
    ∷ (0x81, usart3, 0x1e)
    ∷ (0x82, usart3, 0x1f)
    ∷ (0x83, usart3, 0x20)
    ∷ (0x84, usart4, 0x11)
    ∷ (0x85, usart4, 0x12)
    ∷ (0x86, usart4, 0x13)
    ∷ (0x87, usart4, 0x14)
    ∷ (0x88, usart4, 0x15)
    ∷ (0x89, usart4, 0x16)
    ∷ (0x8a, usart4, 0x17)
    ∷ (0x8b, usart4, 0x18)
    ∷ (0x8c, usart4, 0x19)
    ∷ (0x8d, usart4, 0x1a)
    ∷ (0x8e, usart4, 0x1b)
    ∷ (0x8f, usart4, 0x1c)
    ∷ (0x90, usart4, 0x1d)
    ∷ (0x91, usart4, 0x1e)
    ∷ (0x92, usart4, 0x1f)
    ∷ (0x93, usart4, 0x20)
    ∷ (0x94, usart5, 0x11)
    ∷ (0x95, usart5, 0x12)
    ∷ (0x96, usart5, 0x13)
    ∷ (0x97, usart5, 0x14)
    ∷ (0x98, usart5, 0x15)
    ∷ (0x99, usart5, 0x16)
    ∷ (0x9a, usart5, 0x17)
    ∷ (0x9b, usart5, 0x18)
    ∷ (0x9c, usart5, 0x19)
    ∷ (0x9d, usart5, 0x1a)
    ∷ (0x9e, usart5, 0x1b)
    ∷ (0x9f, usart5, 0x1c)
    ∷ (0xa0, usart5, 0x1d)
    ∷ (0xa1, usart5, 0x1e)
    ∷ (0xa2, usart5, 0x1f)
    ∷ (0xa3, usart5, 0x20)
    ∷ (0xa4, usart6, 0x11)
    ∷ (0xa5, usart6, 0x12)
    ∷ (0xa6, usart6, 0x13)
    ∷ (0xa7, usart6, 0x14)
    ∷ (0xa8, usart6, 0x15)
    ∷ (0xa9, usart6, 0x16)
    ∷ (0xaa, usart6, 0x17)
    ∷ (0xab, usart6, 0x18)
    ∷ (0xac, usart6, 0x19)
    ∷ (0xad, usart6, 0x1a)
    ∷ (0xae, usart6, 0x1b)
    ∷ (0xaf, usart6, 0x1c)
    ∷ (0xb0, usart6, 0x1d)
    ∷ (0xb1, usart6, 0x1e)
    ∷ (0xb2, usart6, 0x1f)
    ∷ (0xb3, usart6, 0x20)
    ∷ (0xb4, usart7, 0x11)
    ∷ (0xb5, usart7, 0x12)
    ∷ (0xb6, usart7, 0x13)
    ∷ (0xb7, usart7, 0x14)
    ∷ (0xb8, usart7, 0x15)
    ∷ (0xb9, usart7, 0x16)
    ∷ (0xba, usart7, 0x17)
    ∷ (0xbb, usart7, 0x18)
    ∷ (0xbc, usart7, 0x19)
    ∷ (0xbd, usart7, 0x1a)
    ∷ (0xbe, usart7, 0x1b)
    ∷ (0xbf, usart7, 0x1c)
    ∷ (0xc0, usart7, 0x1d)
    ∷ (0xc1, usart7, 0x1e)
    ∷ (0xc2, usart7, 0x1f)
    ∷ (0xc3, usart7, 0x20)
    ∷ []
