-- ===== src/Lib.antt =====
-- The Raft activity: a page that follows the nodes of a cluster by their events and asks a broker
-- to kill, isolate and heal them. This library models the JavaScript of the page,
-- infra/dashboard/js, the broker, infra/broker/broker.py, and the code of the nodes around
-- hashicorp/raft, infra/node, and states what each does and what the page shows of what the others
-- do.
--
-- The parts, and how they work together:
--
-- Config (config.js) has the times, windows and fractions. Event has the record of an event with
-- the fields of infra/node/event.go that the page reads; a field that the node leaves out is none.
-- Store (store.js) is the state of the page and its operations, one child for each part of it:
-- Store.State (createStore and linkKey), Store.Nodes (updateNode, setLeader, setMatchIndex,
-- setHeartbeatMs), Store.Links (markRespSeen, tickSilence), Store.Logs (appendLog), Store.Packets
-- (recordPacket, removePacket), Store.Isolation (the marks, the isolated nodes and the declared
-- partitions) and Store.Subscribers (subscribe, update, notify). Bus (eventBus.js) delivers an
-- event to the handlers that are registered. Handlers (handlers/*.js, with rpcHandler.js in
-- Handlers.Rpc) turn an event into operations of the store, and Main (main.js) registers them;
-- Main.Names reads the names of the nodes, and Main.Whole has the bus with the stream on it. Sse
-- (sse.js) feeds the bus with the messages of a node's stream and with the log that is fetched when
-- the stream opens, and Sse.Sources (connectSSE) makes the streams. Controls (views/controlsView.js
-- and the button of views/nodeCardView.js) asks the broker, and does the rest when it is answered;
-- Controls.Words draws a random key and value. World is what all of these act on: the store's
-- state, the packet counter, the timers and requests under way and the two clocks. Page is the
-- event loop: a list of tasks in any order; Page.Frame carries what every operation of the store
-- keeps over to the tasks. Geometry (geometry.js) places the nodes and finds the way of a packet.
--
-- Views has what the page shows of a state: Views.Filters and Views.Stream (filters.js,
-- views/eventStreamView.js, with the text of a line in Views.Stream.Format), Views.LogPanel,
-- Views.NodeCard, Views.Summary, Views.Banner (views/partitionsView.js) and Views.Topology, of
-- which Views.Topology.Panes has the boxes, Views.Topology.Scene the lines and the ways, and
-- Views.Topology.Scene.Frames the animation. Views.Elements has the elements that the views make,
-- and Views.Screen mounts the views on the store, as main.js does.
--
-- Node has the code of a node: Node.Fsm (fsm.go), the store with Apply, Snapshot and Restore;
-- Node.Message and Node.Hub (event.go), an event with its JSON and the hub of the streams;
-- Node.Transport (transport.go) and Node.Acks (replication.go), what is published and recorded of
-- the calls between nodes; Node.Api (http.go), the handlers of a request; Node.State (observer.go
-- and the poll of main.go) and Node.Start (main.go), the lists of peers. hashicorp/raft is a
-- parameter: the record Node.Api.Raft, the log store that is read, and the answers of the inner
-- transport, which are arguments; so is encoding/json.
--
-- Broker (broker.py) has the routes of do_POST, Broker.Docker the commands and Broker.Leader the
-- search for the leader. docker and the HTTP servers are the record Broker.Docker.Environment over
-- a machine of any type, which every command and every request, also a GET, may change. What the
-- proofs need of them is a hypothesis, Broker.Network.IsDocker: what docker inspect, docker start,
-- docker stop and the commands of iptables that broker.py gives do to the containers and their
-- lists of rules, and that a GET does nothing to them. Joint puts the parts together: the requests
-- of the page are requests of the broker (Joint), and what the nodes publish comes to the page as
-- messages (Joint.Feed). Base has the shared helpers, and Tests the concrete runs.
--
-- How the code is read:
--
-- Operations that change the state in place are functions from a state to a state, and a call of
-- Date.now() or performance.now() is an argument or a clock of the World. An object that is used as
-- a table is a list of keys and values in the order of insertion (JavaScript would put names that
-- are whole numbers first, which names of nodes are not); a Set is a list without duplicates.
-- Numbers are natural numbers, as those of the events are (uint64 and int in Go); performance.now()
-- and the durations of packets are counted in hundredths of a millisecond, and the fractions of the
-- heartbeat in hundredths, so that no rounding is left to model. A difference of times stops at 0,
-- where JavaScript's is negative: it is only compared with a limit that is not negative. The packet
-- p7 has the id 7. Strings are compared by code points, which differs from JavaScript's order by
-- UTF-16 units only outside the basic plane; linkKey needs only that the order is total.
--
-- The numbers of the geometry are a parameter, Geometry.Arithmetic.Numbers, with the operations
-- that geometry.js uses; the laws of real numbers stand where they are needed as a hypothesis,
-- Geometry.Ways.Laws, so that the rounding of floating-point numbers is left out. A draw of
-- Math.random() is one of 2^53 equal parts. A text is put together by Base.Separators.concat, and a
-- number in it is written in decimal digits; a missing field is written "undefined", as JavaScript
-- does.
--
-- A loop over a list is structural recursion, and so is the loop of handleLog, by the number of
-- indices from first to last. There are two loops on fuel. The one that shortens the stream has the
-- number of lines, of which each step takes one away; the one that writes the digits of a number
-- has a round more than the number, which each round divides by ten.
--
-- Not modelled: the DOM but for the trees of Views.Elements, the attributes of SVG, and CSS; the
-- points of a path, which the browser computes (a parameter, Views.Topology.Scene.Frames.Paths);
-- the time of an event (the field t); the network between the page and the others (a message, an
-- answer or the loss of a request is a task that may come at any time); the consensus of
-- hashicorp/raft, docker and iptables themselves; the flags, directories and timeouts of a node's
-- start; the HTTP servers with their headers; a request of the broker whose body is JSON but not an
-- object, or has a field that is null or of another type than the page sends; what
-- net.ResolveTCPAddr makes of an address; docker-compose.yml, the page's HTML and its styles.
mod Base
pub mod Config
pub mod Event
pub mod Store
pub mod Bus
pub mod World
pub mod Geometry
pub mod Handlers
pub mod Main
pub mod Sse
pub mod Controls
pub mod Page
pub mod Views
pub mod Node
pub mod Broker
pub mod Joint
mod Tests
