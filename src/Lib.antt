-- ===== src/Lib.antt =====
-- Verification of the Zephyr samples: small C programs for the Zephyr RTOS that show its drivers,
-- kernel services and network stack. Modelled are the programs with logic of their own: those of
-- networking/ETHERNET (the link, addresses, sockets, the HTTP servers, the MQTT client), the UART
-- samples with interrupts, with DMA and with net buffers, hal_drivers/UART, _03 to _09, and samples
-- of the kernel and the middleware: message queues, queues of nodes, channels, timers, events,
-- binary and random numbers, state machines, and the fading of an LED.
--
-- How code is modelled (Base/Calls). A function is a value of `Io S C A`: it takes the state `S` of
-- the program, that is its static and long-lived variables, and the log of the calls it has made of
-- Zephyr, and returns its result with the new state and log. Zephyr is not in the repository: what
-- a call returns is a parameter, any function of the calls made before and of the call
-- (`Env.result`), and so are the bytes it writes through a pointer (`Env.bytes`). A behaviour
-- of the system that a theorem needs is a hypothesis of it. The log has the latest
-- call first, and what a program does to the outside is read off its log. An `int` is `ℤ` of
-- Base/Int over the native numbers; a width is written out where a value can pass it (`msg_id` of
-- the MQTT client, the counters of the UART). A write through an index is a test that sets `overrun`
-- when it leaves its buffer.
--
-- A loop `while (1)`, and a loop that waits for the network, takes the number of its rounds as fuel,
-- and says whether it was left by its own test or `break`. What fuel is enough is a matter of the
-- peer: a round for each `recv` of the echo loop until the client ends its stream, two rounds of
-- `app_mqtt_connect` with a broker that accepts, an interrupt for each byte of a UART message.
-- Two threads, or a thread and an interrupt, run by a schedule: a list of turns, each of which is one
-- statement of a thread or one callback, so that a theorem for all schedules holds for all orders.
-- Where time passes by itself (kernel/TIMERS), the program is a step relation: a step is time that
-- passes, an expiry with its callback, or a statement. A state is what the steps reach from the
-- start.
--
-- Files.
--   Base: Lists (lists and bytes), Int, Calls, and Semaphore (the tokens of a semaphore, over a log).
--   Net: the calls of the socket programs. Net/Protocol: the automaton of a socket's life, over a
--     log. Net/Sniff: what was sent, received and asked for, over a log.
--   Net/Address: the table of addresses. Net/Address/StaticIp: _03_static_ip/src/main.c.
--     Net/Address/Dhcp: _04_dhcp/src/main.c. Net/Address/Connection: the link polled by
--     _01_basic_connection and reported to _02_basic_connection_cb.
--   Net/TcpClient: _05_tcp_client/src/main.c (`tcp_connect_and_send`, `assign_static_ip`, `main`).
--   Net/TcpServer: _06_tcp_server/src/main.c (`handle_client`, `start_tcp_server`, `main`).
--   Net/UdpSender: _07_udp_sender/src/main.c (`udp_send_packets`, `main`).
--   Net/UdpReceiver: _08_udp_receiver/src/main.c (`udp_receive`, `main`).
--   Net/HttpClient and Net/HttpsClient: main.c and net_sample_common.c of _09_http_client and
--     _10_https_client (`connect_socket`, `connect_tls_socket`, `wait_for_network`, `main`).
--     Each has Safety for the use of its socket, Events or Callbacks for the handlers, and Tests.
--   Http: _11_http_server_basic/src/main.c, the handlers of the resources and `main`. Http/Secure:
--     _12_https_server_basic/src/main.c, the same with credentials.
--   Mqtt: the types, constants and calls of _13_mqtt; `Mqtt` holds the variables that its files
--     share. Mqtt/Session: the automaton of an MQTT session, over a log. Mqtt/Leds and Mqtt/Replies:
--     the LED writes and the acknowledgements of a log.
--   Mqtt/Device: device.c. Mqtt/Handler: the event handler of mqtt_client.c.
--   Mqtt/Client: mqtt_client.c from `prepare_fds` on: poll, process, run, connect, init, subscribe.
--   Mqtt/Publish: `get_mqtt_payload`, `app_mqtt_publish`, and `publish_work_handler` of main.c.
--   Mqtt/Main: `main` and `net_event_handler` of main.c.
--   Uart: the calls and the message of the UART samples. Uart/Tx: _03_tx_one_message_interrupts.
--   Uart/Sync: _04_sync_tx_with_semap, its thread and its interrupt interleaved. Uart/Fill: what goes
--     over the wire. Uart/Rx: _05_reception_with_int, which _06_tx_rx_with_interrupts repeats;
--     Uart/Rx/Line has the line assembler. Uart/DmaTx: _07_tx_messages_with_dma. Uart/Dma:
--     _08_rx_messages_with_dma. Uart/Buffers:
--     _09_tx_messages_net_buffers, its thread and its callback; Spec reads the pool, the FIFO and the
--     driver off a log.
--   Smf: the framework for state machines as an interface, operations and laws. Smf/DataPass:
--     middleware/SMF/_03_machine_with_data_pass. Smf/Queue: _06_event_machine_with_mqueue. Smf/Event:
--     _01_simple_state_machine and _05_simple_event_machine, which waits for a timer. Smf/Actions: the
--     states with entry, run and exit of _02, and the interface of the framework for them. Smf/Nested:
--     _04_hierarchical_state_machine, over the same interface.
--   Led: middleware/LEDS/_04_led_brightness_pwm, with its 8-bit numbers.
--   Kernel/Events: kernel/EVENTS, _01 to _04, the threads that set and wait for events. Kernel/Binary:
--     `print_binary` of _03_posting_two_events, which the others repeat. Kernel/Random:
--     utils/_01_SRNG. Kernel/MsgQueue: kernel/MQUEUES, _01 to _05, the queue of k_msgq; its child
--     Draining is the sample whose receiver empties the queue, Streaming the others. Kernel/Timers:
--     kernel/TIMERS, the step relation; Reload is _01, OneShot is _02, Stop is _06. Kernel/Zbus:
--     kernel/ZBUS; Two is _07, two channels read by one thread, Observers the samples _01 to _06
--     and _08. Kernel/HeapQueue: kernel/QUEUES/_04_using_dynamic_memory, its two threads; Order
--     reads the heap and the queue off a log. Kernel/Pool: kernel/QUEUES/_02, _03, _05 and _06,
--     whose queues link the nodes of a pool, so that a node must be out of the queue where it is put.
-- A C function is one definition of its name. What follows a guard of the function is a helper of its
-- own, named for what it does; the helpers are composed in the order of the code.
--
-- How the parts of the MQTT client interact. main waits for the network, then calls
-- `app_mqtt_connect` and `app_mqtt_run` in turn. Both call the MQTT library, which calls the event
-- handler back before it returns: `library log` is the list of events delivered during the call at
-- the head of the log, and `library_call` runs the handler on them. The handler sets the connection
-- flag that the loops test, drives the LEDs through Mqtt/Device, and acknowledges publications.
--
-- Not modelled. Texts that are printed without a value. The fields of the structures that are passed
-- to Zephyr unread (addresses beyond the constants, TLS options, the JSON descriptor, the headers of
-- an HTTP request). A call that the MQTT event handler makes delivers no event of its own. The work
-- queue that runs `publish_work_handler` is not interleaved with the thread of main. `dummy_value`
-- rounds the double of device.c down to the integer that its conversion gives. The handlers of the
-- addresses are not interleaved with the programs that register them, nor are the threads of
-- kernel/EVENTS with each other. Left out are the samples
-- that are straight lines of calls: GPIO, work queues, threads, inputs, the shell, the other samples of
-- the queues, the timers, the LEDs and the UART.
pub mod Base
pub mod Net
pub mod Mqtt
pub mod Uart
pub mod Smf
pub mod Http
pub mod Led
pub mod Kernel
