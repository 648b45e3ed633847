-- ===== src/Lib.antt =====
-- aether-client-cpp: the client library of the Aether network. This development is about its safe
-- stream, a reliable byte stream over a link that loses, repeats and reorders packets with a
-- sliding window over indices that go round, and about the parts that it runs on and beside.
--
-- The parts, from the bottom up, by their paths from the repository's root:
--
--   aether/types/ring_index.h                              Ring, Ring/Distance, Ring/Order
--   aether/safe_stream/details/circular_buffer.h           Circular, Circular/*
--   aether/safe_stream/details/sending_chunk_list.h        Chunks/Sending
--   aether/safe_stream/details/receiving_chunk_list.h      Chunks/Receiving, Chunks/Receiving/*
--   aether/safe_stream/safe_stream_config.h and
--   aether/safe_stream/details/safe_stream_data_message.h  Stream/Message
--   aether/safe_stream/details/safe_stream_send_action.h   Stream/Sender, Stream/Sender/*
--   aether/safe_stream/details/safe_stream_recv_action.h   Stream/Receiver, Stream/Receiver/*
--   aether/safe_stream/safe_stream.h and
--   aether/safe_stream/details/safe_stream_api.h           Stream/Safe, Stream/Safe/Writes
--
-- Six parts stand by themselves: the lines that a serial modem answers, the packets that a
-- transport or a gate collects from a stream, the queue of packets that a transport sends, the
-- parsing of an address, the statistics of values and the state of an action.
--
--   aether/serial_ports/at_support/at_buffer.cpp           AtBuffer, AtBuffer/*
--   aether/transport/data_packet_collector.h and
--   aether/transport/data_packet_collector.cpp             Collector, Collector/*
--   aether/stream_api/sized_packet_gate.cpp                PacketGate, PacketGate/*
--   aether/transport/packet_queue_manager.h                PacketQueue, PacketQueue/Sending
--   aether/types/address_parser.h                          AddressParser, AddressParser/*
--   aether/types/statistic_counter.h                       StatisticsCounter, and below it
--   aether/types/state_machine.h                           StateMachine, StateMachine/Changes
--
-- On the lines of a modem stand the observers that are called for them, the requests that wait for
-- them and the parsing of an answer:
--
--   aether/serial_ports/at_support/at_dispatcher.cpp       AtSupport/Dispatcher, and below it
--   aether/serial_ports/at_support/at_request.h            AtSupport/Request
--   aether/serial_ports/at_support/at_support.h and
--   aether/serial_ports/at_support/at_support.cpp          AtSupport/Parsing, and below it
--
-- The calls of the network API that have a response wait for it in a registry:
--
--   aether/api_protocol/protocol_context.h and
--   aether/api_protocol/protocol_context.cpp               Protocol, Protocol/*
--
-- Actions run one after the other, again and again, or in a pool:
--
--   aether/actions/actions_queue.h                         Actions/Queue, Actions/Queue/*
--   aether/actions/repeatable_task.h                       Actions/Repeat
--   aether/actions/action_pool.h                           Actions/Pool
--
-- Writes that come before a stream is ready wait in a buffer:
--
--   aether/write_action/buffer_write.h and
--   aether/write_action/buffer_write.cpp                   BufferWrite, BufferWrite/*
--
-- The parts call each other back through events:
--
--   aether/events/event_list.h, event_list.cpp and
--   aether/events/events.h                                 Events, Events/*
--
-- Below all of these is the scheduler of tasks, whose parts are the two queues, the subscriptions
-- by which a task is cancelled, and the pool with its updates:
--
--   aether/tasks/details/task_queues.h                     Tasks/Queues, Tasks/Queues/Order
--   aether/tasks/details/task_subsctiption.h and
--   aether/tasks/details/task.h                            Tasks/Links, Tasks/Links/Safe
--   aether/tasks/details/task_manager.h and
--   aether/tasks/details/manual_task_scheduler.h           Tasks/Scheduler, Tasks/Scheduler/*
--
-- Prelude has the tests, lists and machine sizes that they share, Stream/Positions the positions of
-- a stream and their indices, and Tests the concrete inputs.
--
-- An operation of a class is a function on a record of the class's members: `SafeStreamSendAction`
-- is `Sender`, `SafeStreamRecvAction` is `Receiver`, `CircularBuffer` and the two chunk lists keep
-- their names, and a function keeps the method's name (`SendChunk` is `send_chunk`). The size of
-- the ring, a template argument, is the first argument of each. A `RingIndex` is its number. The
-- array of a buffer is a function from indices to bytes.
--
-- The sender reads its buffer at `last_sent` and pushes a chunk through `ISendDataPush`; the
-- receiver puts what arrives in its buffer and hands on what has no gap. What they push, send and
-- emit is the list `log` of events of the record, oldest first. A task that a class puts in the
-- scheduler is a flag or a timer of the record and an operation that runs it (`on_send_task`,
-- `on_repeat_timer`, `on_recv_task`, `on_ack_timer`, `on_missing_timer`), and the order in which
-- packets arrive and tasks run is left open. `SafeStream` joins the two: its handlers of their
-- events only touch its own members, so each operation of an end runs first and the handlers of
-- what it emitted after it, in order. The scheduler takes every task it is given.
--
-- The write buffer's direct write is the parameter `direct_write`: from how many were tried before
-- and the data, it answers the write action or none, and whether buffering was turned on within.
-- The loops over its entries go over those that it held at first, as the iterators do; a `Drop` that
-- comes to an entry which has left the buffer gives none.
--
-- A handler of an event is a number, and the parameter `effects` says what it asks of its event
-- when it is invoked: `step` is the next thing that the innermost emission does, so that handlers
-- may add, remove and emit in any way. The iterator to a handler is the handler's key.
--
-- A response of the API is a number, and the parameter `react` is what the code outside does with
-- the whole context when a method of the response calls it; `Keeps` says that it leaves a valid
-- context. A null pointer and a broken assertion both give none. A stage of the queue of actions
-- is a number, with what its factory asks of the queue, whether its action is over at once and
-- whether `Stop` ends it as parameters. The pool of actions runs on the model of the scheduler. An
-- observer of the modem's lines is a number, with what it asks of the dispatcher as a parameter;
-- the map of the observers is a list in the order of its commands, and its iterator a command. A
-- command that is sent is tested against its buffer of 1024 bytes, as the code's assertion does,
-- and the parsers of numbers are parameters.
--
-- Sizes are numbers of 64 bits, message indices and offsets of 16 and repeat counts of 8, with
-- their wrap-around where the code may reach it; a ring has less than 2^63 indices, as the code
-- demands. The use counter of an event is kept by its 16 bits. A size that is cast to a signed
-- number is negative from 2^63 on: `GetCrate` then inserts no valid range, which gives none, and a
-- new packet gets no memory. Whether it gets memory else is a parameter. The loop of `Insert` is
-- on fuel, as much as the length of the data: each round takes at least one byte, so it ends with
-- all bytes written (`Circular.Copy.insert_loop-Copied`). The loops of `DataRead` and of the
-- packet queue's removal are on fuel in the same way. The loop of `AddData` has one round for each
-- byte and gives none if it has not ended by then, which happens only where the last packet has no
-- memory, and then on any fuel (`Collector.Lossless.add_data-printed`). `RunStage` needs fuel for
-- each stage that waits if the factories push none (`Actions.Queue.Idle.run-IsSettled`), and
-- `BufferUpdate` for each observer if they add none
-- (`AtSupport.Dispatcher.Notified.buffer_update_lem`). The loop of `IpV6Parse` takes at least one
-- byte in each round, and has the length of the text as fuel. The others are by recursion on their
-- lists. What a packet of the queue does is a parameter, and so is the reading of a packet's size
-- (`IsReader` says what the code relies on there).
--
-- Not modelled: `wait_timeout` stands for the percentile of the response times and its growth, in
-- floating point; `RandomOffset` is the argument `offset` of `init`; the clock is the argument
-- `now`; telemetry has no effect. Of the scheduler, `WaitUntil` and the requests of other threads
-- while an update runs are not modelled, nor is the serialisation of the calls between two streams,
-- which reflects over templates. Of the modem's lines, the stages that join requests by the library
-- of executors are left out. Of the client's other parts, the drivers of modems, wifi, serial ports
-- and sockets talk to devices, the adapters of cryptography to external libraries, the object
-- system and the API's methods are reflection over templates, and the registration and the cloud
-- are sequences of remote calls.
pub mod Prelude
pub mod Ring
pub mod AddressParser
pub mod Circular
pub mod Chunks
pub mod Stream
pub mod AtBuffer
pub mod PacketQueue
pub mod StateMachine
pub mod StatisticsCounter
pub mod Tasks
pub mod BufferWrite
pub mod Events
pub mod Collector
pub mod PacketGate
pub mod Protocol
pub mod Actions
pub mod AtSupport
pub mod Tests
