-- ===== src/Lib.antt =====
-- feedbench measures which of several feeds of a rollup delivers its blocks and transactions first.
-- Source adapters read the feeds and send events to one collector; the collector matches the
-- deliveries and the report prints its numbers. This library models the parts that decode, match
-- and report:
--
-- * L2 (src/l2.rs): `signed_txs` and `walk` on the bytes of a Nitro L2 message. L2/Message holds
--   the layout as a data type with its writer.
-- * WsRaw (src/wsraw.rs): `be`, `rlp_item_len`, `tx_len` and `split_txs` on a binary frame;
--   WsRaw/Frames `json_keys` and the events of a frame.
-- * WsJson (src/wsjson.rs): `extract`, `key_from_value` and the events of a message. WsJson/Paths
--   holds the paths as a data type with their writer.
-- * Event (src/event.rs): the events that adapters send.
-- * Stats (src/stats.rs): the collector. Stats is its state and `Collector::new`; Stats/Windows
--   the `Connected` and `Disconnected` branches of `on_event` and `in_window`; Stats/Record the
--   `Block` and `Tx` branches; Stats/Collect `on_event` itself and a run of events; Stats/Wf the
--   invariant; Stats/Percentile `nearest_rank`, `median` and `Percentiles::of`; Stats/Summary
--   `block_summary`; Stats/TxSummary `tx_summary`; Stats/Pairs `pair_summary`; Stats/Seconds
--   `window_seconds`.
-- * Inflate (src/inflate.rs): `Inflater`, with flate2 as a parameter.
-- * Ws (src/ws.rs): `parse_frame` and `client_frame`; Ws/Session `data_frame`, `finish` and the
--   frame loop of `next_message`, over the inflater of Inflate; Ws/Negotiation `negotiated_mode`,
--   `Offer` and `retry_delay`; Ws/Url `parse_url`; Ws/Handshake `connect` behind its socket, from
--   the request to the mode, the inflater and the limits of the connection.
-- * Nitro (src/nitro.rs): `parse_frame` behind the JSON decoder, and the loop of `run` over the
--   messages of a connection, with the cursor for the next one.
-- * Adapter (src/nitro.rs, src/wsjson.rs, src/wsraw.rs): the loop of `run` over the connection
--   attempts, with sends that fail when the collector is gone. Adapter/Sources holds the three
--   instances; Adapter/Lifecycle, Adapter/Cursor, Adapter/Collected and Adapter/Delivers are about
--   the order of the events, the resumption, the collector's view and delivery.
-- * Specs (src/nitro.rs, src/wsjson.rs, src/wsraw.rs): the `parse` functions of the sources.
-- * Reconnect (the same, and src/eira.rs): the waits between the connection attempts.
-- * Eira (src/eira.rs): the loop of `session` over the updates of a stream. Eira/Announced and
--   Eira/Once are about the blocks it announces, Eira/Keys about its keys and those of Nitro.
-- * Report (src/report.rs): Report/Utc `utc_string`, Report/Table `Table`, Report/Rendered the
--   header and `render_block_summary`, Report/Printed `render`,
--   with what its text shows in Report/Printed/Layout.
-- * Main (src/main.rs): Main/Setup the sources, indices and tasks from the arguments, Main/Loop the
--   event loop over the collector and the summaries and comparisons behind it, Main/Finish the
--   report that is printed at the end.
--
-- Bytes, characters and instants are natural numbers; slices and vectors are lists. A panic is
-- `none`, except where a module says that `none` is the source's `None`. Counters wrap at their
-- width; `usize` sums wrap at 2 ^ 64 in WsRaw, where a frame can make them, and are plain numbers
-- where they count things in memory. A `HashMap` is an association list.
--
-- Fuel: the loop over a batch has as much as there are bytes left, and every round takes eight;
-- the loop of `split_txs` as much as there are bytes in the frame, and every round takes eight;
-- the loop of the inflater one more than the input and the limit together, as every round that is
-- not the last consumes or produces something; the frame loop one more than the buffer holds, as
-- a frame takes two bytes at least; the loop of a specification as much as it has characters, as
-- every field has an equals sign. The calendar of `utc_string` is for all days from the epoch on.
--
-- `Instant + Duration` is none past the last instant of Linux, of 2 ^ 63 seconds, in `in_window`,
-- `window_seconds`, the deadline and the first tick; `try_in_window` is the code's, and `in_window`
-- its answer when no sum overflows. What `Duration::from_secs_f64` makes of the warm-up is an
-- argument of the run, none when it panics. The millisecond behind an arrival, in `tx_summary`, and
-- the number of an interval are plain sums: they would overflow in the last millisecond of the
-- clock, and at 2 ^ 64 intervals.
--
-- The channel to the collector is `room`: how many events the collector still takes before it goes
-- away, so that every way in which a send fails is one number. Eira is the session of src/eira.rs
-- while the sends succeed, and Eira/Sent the session over such a channel.
--
-- Not modelled: sockets, TLS and timers; the decoders of JSON, base64, hexadecimal digits and gRPC,
-- which are other packages'; the options of src/main.rs that only choose a compression or a file,
-- and what it prints while it runs; f64 arithmetic and how an f64 is printed, which are parameters;
-- keccak256, which is another package's.
pub mod Common
pub mod L2
pub mod WsRaw
pub mod WsJson
pub mod Event
pub mod Stats
pub mod Report
pub mod Inflate
pub mod Ws
pub mod Nitro
pub mod Specs
pub mod Reconnect
pub mod Eira
pub mod Adapter
pub mod Main
