-- ===== src/Lib.antt =====
-- Verification library of trikRuntime, the programs that run on the TRIK robot controller.
--
-- The program's parts that are modelled, and how they interact:
--   * trikNetwork: robots exchange messages over TCP. A Connection frames messages
--     ("<length>:<data>") and watches the other end with timers; a MailboxConnection gives the
--     messages their texts; a TrikServer keeps the connections; the MailboxServer knows the other
--     robots, sends to them and queues what they say.
--   * trikHal: the FIFO device file cuts the bytes of a driver into lines; motors, encoders and
--     sensors are reached over USB or I2C.
--   * trikKernel: the Configurer reads which devices there are and what is connected to which port.
--   * trikScriptRunner: a script starts, joins and kills threads, which exchange messages.
--   * trikControl: devices of the brick. Each has a DeviceState; workers turn the events of
--     drivers into readings. The CameraManager shares the frames of a camera between clients, and
--     gives a buffer back to the driver when the last of them drops it.
--
-- The files, by the code they are about:
--   * Text, Text.Decimals: QByteArray and QString as lists of code units; the number texts of Qt
--     are the parameter `Decimal`, with an instance for the tests.
--   * Network.Framing: Connection::processBuffer, send and onReadyRead for
--     Protocol::messageLength (trikNetwork/src/connection.cpp). Network.Framing.Fragments is about
--     cutting a stream, Network.Framing.RoundTrip about packets.
--   * Network.Lines: processBuffer for Protocol::endOfLineSeparator and TrikFifo::readFile
--     (trikHal/src/trik/trikFifo.cpp), whose conversion of a read to text is the parameter `decode`.
--   * Network.Connection: the whole Connection; each slot is a function on its state whose second
--     result is the list of effects (writes, signals, handed on messages) in their order. What the
--     socket and the timers answer is an argument.
--   * Network.MailboxConnection: processData and the texts of trikNetwork/src/mailboxConnection.cpp;
--     QHostAddress and UTF-8 are the parameter `Codecs`.
--   * Network.TrikServer: mConnections, notPreparedConnections and the two signals
--     (trikNetwork/src/trikServer.cpp). A thread is a number.
--   * Network.MailboxServer: trikNetwork/src/mailboxServer.cpp. mKnownRobots, a QMultiHash, is a list
--     with new entries first; Qt leaves the order between different keys open, and the model takes
--     this one. Calls that are queued in the thread of a connection are values (`Request`).
--   * Control.DeviceState: trikControl/src/deviceState.cpp; an exception is the outcome `thrown`.
--   * Control.DataFilter, Control.RangeSensor, Control.Keys: datafilter.cpp, rangeSensorWorker.cpp,
--     keysWorker.cpp of trikControl/src. While the event file of a range sensor opens, in an event loop
--     of its own, stop may come: init takes the stops, and reads the state again after them.
--   * Control.Gamepad: trikControl/src/gamepad.cpp, with Control.Gamepad.Commands for the lines that its
--     FIFO reads; the lines are arguments, and a list read out of range is `none`.
--   * Control.Lidar: trikControl/src/lidarWorker.cpp. mLidarChunk is the list of the bytes stored so
--     far, mResult a function on its 36000 indices; a write outside of either is `none`.
--   * Kernel.Xml, Kernel.Configurer: trikKernel/src/configurer.cpp. Kernel.Configurer has the lookups,
--     Kernel.Configurer.Parsing the reading of the elements that QDomDocument gives; QHash is an
--     association list whose keys are unique.
--   * Script.Threading: trikScriptRunner/src/threading.cpp. A thread is its id with the error that its
--     script ended with. reset is two steps, begin_reset and end_reset, since it waits for all
--     threads in between; receiveMessage is receive_message, begin_wait and go_on.
--   * Hal.UsbMsp: trikHal/src/trik/usbMsp. Hex and Packets are the texts of the packets, Device the
--     exchange and the loop that reads a register, Motors and Sensors the commands by what they are
--     for, Commands the rest of the interface and trikMspUsb.cpp. The operating system is the
--     parameter `Tty`; undefined behaviour is a `Fault`. A loop counts its tries in 16 bits, so
--     2 ^ 16 rounds of fuel are enough, which Hal.UsbMsp.Device.Polling proves.
--   * Hal.I2c: commonI2c.cpp (Common) and trikI2c.cpp (Smbus) of trikHal/src/trik, two implementations of
--     MspI2cInterface over the parameter `I2cBus`; Control.I2cDevice: i2cDevice.cpp and
--     mspI2cCommunicator.cpp of trikControl/src over such an implementation.
--   * Control.MspDriver: mspDriver.cpp, mspUsbCommunicator.cpp, communicatorProvider.cpp and
--     mspBusAutoDetector.cpp of trikControl/src, over Hal.UsbMsp and Hal.I2c.
--   * Hal.Fifo: trikHal/src/trik/trikFifo.cpp; Control.FifoWorker: fifoworker.cpp and fifo.cpp of
--     trikControl/src. The conversion of a read to a QString is the parameter `decode`. A signal of the file is a call of the worker, which lives in the same thread.
--   * Script.Runner: trikScriptRunner/src/trikScriptRunner.cpp, the choice of a runner for a script.
--   * Control.VirtualSensor: abstractVirtualSensorWorker.cpp and soundSensorWorker.cpp of
--     trikControl/src. What the system answers during a call is the record `Answers`.
--   * Control.ColorSensor: colorSensor.cpp of trikControl/src. Control.DspSensor: dspSensorBase.h,
--     dspSensorBase.cpp and lineSensor.cpp of trikControl/src, with the results of the signal processor
--     and the product with the factor of tolerance as arguments.
--   * Kernel.TimeVal: trikKernel/include/trikKernel/timeVal.h.
--   * Control.CameraManager: cameraManager.cpp of trikControl/src with Frame of cameraManager.h; Stopping
--     has the calls that end a stream, Ports the calls by the name of a port. Frames has a port with its
--     clients and the queue of the driver, and the steps of both: a client holds no frame at a call that
--     stops the stream, as cameraManager.h asks. The driver may refuse a buffer (QBUF) and the end of the
--     stream (STREAMOFF); a reliable one refuses no buffer but those that it has. Hal.VideoDevice:
--     trikHal/src/trik/videoDeviceFileBase.cpp.
-- Conventions: int is an integer, unsigned sizes are natural numbers, and wrap-around is written
-- out; a slot is one step, since the locks and the event loop of a thread serialize them; loops are
-- recursive functions. processBuffer runs on fuel: a round drops a byte or settles a length, so one
-- more round than `measure` is enough, which Network.Framing.Fragments uses; the loop that reads a
-- register does, too (Hal.UsbMsp).
--
-- Not modelled: the GUI, the other drivers of the controller, the images of cameras, DSP pipelines, the
-- script engines and their generated bindings, and code of third parties. Threads are not interleaved
-- within a slot.
pub mod Prelude
pub mod Text
pub mod Control
pub mod Hal
pub mod Kernel
pub mod Network
pub mod Script
