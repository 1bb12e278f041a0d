-- ===== src/Lib.antt =====
-- A verification library for the VDA 5050 client library, version 2.0.0.
--
-- The program lets vehicles (AGVs) and a master control talk to each other over MQTT by the VDA
-- 5050 protocol. Paths are from the repository's root.
--   * src/common/vda-5050-types.ts, src/common/client-types.ts: the messages. Types.antt and its
--     children have a record for each interface and a data type for each enumeration, with the
--     source's names. A property that may be missing is an Option. A number that is not computed
--     with is a Double, laid out as IEEE 754 does; counters and sequence IDs are natural numbers.
--   * src/common/agvid-map.ts: AgvIdMap.antt. JsMap.antt has the JavaScript Map beneath it, with its
--     order of insertion.
--   * src/common/mqtt-utils.ts: Mqtt.antt, over the UTF-16 code units of a text.
--   * src/common/subscription-manager.ts: Subscriptions.antt, with the topic formats
--     (Subscriptions/Format.antt: _compileMqttTopic and the functions that it makes) and the nested
--     maps of subscriptions (Subscriptions/Store.antt: add, remove, getAll, find, clear).
--   * src/controller/agv-controller.ts: AgvController.antt. Model.antt has the controller's fields
--     and the update of its state, Errors.antt the errors, Validation.antt
--     _validateOrderConstraints, Orders.antt what an order contributes to the state, Process.antt
--     _processOrder and _acceptOrder, Actions.antt the processing of nodes, edges and actions,
--     Status.antt _updateActionStatus for orders, Cancel.antt _cancelOrder, Instant.antt and
--     Instant/Messages.antt the instant actions, Reports.antt what the adapter reports,
--     ErrorUpdates.antt updateErrors, and Cleanup.antt what follows the publishing of a state.
--   * src/common/client.ts: Client.antt has _validateTopic, validateAgvId, _nextHeaderId and
--     publishTopic, Client/Subscribing.antt subscribeTopic, unsubscribe and _dispatchMessage.
--     src/client/agv-client.ts and src/client/master-control-client.ts: Client/Directions.antt has
--     their validateTopicDirection, which publishTopic is given, and Client/Tracking.antt the
--     connection messages of vehicles and how a master control tracks them.
--   * src/adapter/virtual-agv-adapter.ts: VirtualAgvAdapter.antt. Numbers.antt has the arithmetic of
--     doubles as a parameter, Vehicle.antt the vehicle's state, the options and what actions do to
--     it, Definitions.antt the definitions of virtual actions, Catalogue.antt those that the adapter
--     comes with, Machine.antt with Machine/Transition.antt and Machine/Tick.antt the state machine of
--     an action, Adapter.antt the handlers, Adapter/Ticks.antt the loop over the machines, Motion.antt
--     the drive along an edge, Motion/Range.antt where the vehicle may drive, and
--     Motion/Charging.antt the battery and the whole of a tick.
--   * src/controller/master-controller.ts: MasterController.antt. Model.antt has the caches, a store
--     of which the maps hold the places, and the events, Caches.antt adding, finding and removing
--     them and assignOrder, Graph.antt the look-ups in orders, Edges.antt processEdgeEvents and
--     _updateEdgeStateChanges, Orders.antt and Orders/Processed.antt _dispatchOrderState,
--     Instant.antt the instant actions, and Dispatch.antt _dispatchState.
-- The subscription manager uses the topic lengths of mqtt-utils; the controller is a client that
-- subscribes orders and instant actions and publishes states. The adapter is a parameter of the
-- controller: its questions are functions, and what it is told is the log of the controller. The
-- virtual adapter is one: what it calls is the log of the vehicle. The master controller is a client
-- that publishes orders and instant actions and subscribes states; its handlers are events.
--
-- Names are the source's in snake case. A method that changes its object returns the new one. A
-- thrown error is a value of Outcome. The generated validators (vda-5050-validators.js) are a
-- parameter: the message of the TypeError that is thrown for what they refuse, if they do. IDs from
-- the package uuid are arguments. Error objects, which the source tells apart as objects, carry an
-- identity. Stitching changes the last base node in place, which contexts that the adapter has been
-- given refer to: a report about a node is about the node that the current order has at its place.
-- The adapter is taken to report after a handler has returned, not from within it, but for the
-- callback `stopped`, which the virtual adapter calls from within stopTraverse: whether an adapter
-- does so is a field of the controller, which cancelOrder asks; elsewhere nothing follows that
-- call, and the callback is the next step. A connected MQTT client is taken to hand on each
-- message.
--
-- The fuel of the instant actions is enough since an action that the controller ends itself goes on
-- with the pending ones after it is taken out of them: one more than their number. The loop over the
-- state machines has as many rounds as there are machines, and the search of the last active cache
-- one more than there are caches, since each step goes to an older one.
--
-- Not modelled: the MQTT connection and the reconnection (package mqtt), handlers that change the
-- subscriptions while a message is dispatched, timers and the clock, the vehicle controller's start
-- and shutdown, the estimation of order execution times by the virtual adapter, the example and the
-- tests. What a handler of the controller does while the virtual adapter calls it, such as
-- executing further actions, is not part of the adapter's tick.
pub mod Prelude
pub mod JsMap
pub mod Types
pub mod AgvIdMap
pub mod Mqtt
pub mod Subscriptions
pub mod AgvController
pub mod Client
pub mod VirtualAgvAdapter
pub mod MasterController
pub mod Tests
