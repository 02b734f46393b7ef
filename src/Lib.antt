-- ===== src/Lib.antt =====
-- Dragon Shift, the server of a workshop game: each player brings a character, which hatches as a
-- dragon; they find out in Phase 1 what it likes, write notes for the next team, look after someone
-- else's dragon in Phase 2, are scored by a judge and vote for a design. This library models the
-- program's core logic and states what makes it correct.
--
-- The parts, and the files that model them.
-- Common is shared: Boolean tests, lists over the native numbers, options, in Common/Text the code
-- points, the trimming and the order of a str, and in Common/I32 the
-- integers of an i32 with the value that two's complement wrapping leaves. BTreeMap is
-- std::collections::BTreeMap as the list of its entries in the order of their keys; its children have
-- the laws of lookups after writes.
-- Protocol is platform/crates/protocol/src/lib.rs: the enums and records that the session logic
-- reads, and in Protocol/Settings the table of phases of create_session_settings.
-- Dragon is the dragon's half of platform/crates/domain/src/lib.rs. SessionDragon is the struct of the
-- same name, field by field. `act` is the match of apply_action, with apply_feed, apply_play and
-- apply_sleep for its arms. Dragon/Tick is the loop body of advance_tick, cut into the stages
-- shift_reaction, yawn, drain, sadden, forgive, fall_silent, cool_down, wake and count_tick in the
-- order of the code. Dragon/Invariant, Effects, Decay and Cooldown hold the proofs, and Dragon/Frame
-- the fields that an action and a tick leave alone.
-- Session is WorkshopSession of the same file, with transition_to and can_transition. A method of
-- `&mut self` takes the session and returns the new one, with its result where it has one. Its
-- children follow the methods: Session/Host has add_player, reserve_host and ensure_host_assigned;
-- Session/Start assign_player_character, begin_phase1 and reset_to_lobby; Session/Handover
-- record_discovery_observation, save_handover_tags and the entry into Phase 2; Session/Play
-- apply_action, advance_tick and award_phase_end_achievements; Session/Voting the judge, the vote and
-- the scores; Session/Clock the time left. Session/Invariant has the invariant of a session with the
-- lemmas of its methods, Session/Failures what a method that fails leaves, Session/Diagram the edges
-- of the phases.
-- Workshop puts the methods together: a Call is one of them with its arguments, and `run` makes a
-- sequence of calls, each at its own reading of the clock.
-- Realtime is SessionRegistry of platform/crates/realtime/src/lib.rs, over any type of message.
-- Security is the rate limiter and is_origin_allowed of platform/crates/security/src/lib.rs.
-- Server is workshop_command of platform/app-server/src/http.rs, from the preload of a character on:
-- Server/Commands and Server/Stages have one function for each of its thirteen commands, and
-- Server/Handler the match over them and the write after it, with what is put back where the lease is
-- lost or the store fails. It calls the methods of Session. Server/Actions is parse_player_action of
-- platform/app-server/src/helpers.rs. The proofs are in Answers, Replies and Writes (success and
-- error), Refinement and Serving (commands as calls of the session's methods), Hosting (who may give
-- them), Assigning (the start of a game) and Actions/Words, which rests on
-- Actions/Spelling and Actions/Folding. Server/Deadlines is advance_overdue_phase
-- of platform/app-server/src/ws.rs, Server/Judging the judge of platform/app-server/src/llm.rs with
-- its validate_judge_response.
-- Persistence is the store in memory of platform/crates/persistence/src/lib.rs: Persistence/Leases the
-- leases of the sessions, Persistence/Connections the registered connections of the replicas,
-- Persistence/Listing list_open_workshops with its pages; the proofs are in their children. Of the
-- connections' two maps the proofs take the view that Realtime has of them.
-- Examples has a workshop of two players, on which the tests run.
--
-- How the code is read.
-- An error leaves a method with the session as it stands then, as `?` does. An i32 field that never
-- falls below 0 is a natural number: every subtraction on it is clamped by max(0) or stands behind a
-- test, and the counters grow by one a call, so they agree with the i32 for less than 2^31 calls. The
-- scores, the clock and the limiter's u32 counter wrap as they do in a release build. A DateTime is a
-- number of nanoseconds, and the clock is read once in a call. What rand draws is an argument (Draws),
-- the same draw for each field as in the code. Strings are native. All loops run over lists and
-- need no fuel; only the walk of a client over the pages of Persistence/Listing/Pages takes it, one
-- more than there are rows. In the one place where the code would panic, a player without a character
-- in the loop of begin_phase1, the model passes over the player: the test before the loop has refused
-- such a session. In is_origin_allowed the normalization of an origin and the host of a url, which the
-- url crate computes, are parameters.
--
-- In workshop_command the JSON of a payload comes decoded (Payload says as what), since serde decodes
-- it; what the store loads, and whether the lease and the store hold out are arguments too, as are the text of an error and the random id of an artifact.
-- How chrono reads a lease's deadline and writes a time is an argument. In advance_overdue_phase the
-- clock of the methods is the time that the deadline is compared with. A judge provider's reply is an
-- argument, and the sum that starts its rotation wraps at 64 bits. The maps of the store in memory are
-- hash maps of which only lookups are used.
--
-- What is not modelled: the Postgres store and the rest of the store in memory in
-- platform/crates/persistence; the checks of workshop_command before its lock, and the server's other
-- handlers, sockets, caches, authentication and requests to LLM services in platform/app-server; the
-- Dioxus client in platform/app-web; build automation, tests, charts and infrastructure; and of the
-- modelled crates the account types, the plain getters, the wire types, create_origin_policy,
-- session codes, data URLs and the password hash.
pub mod Common
pub mod BTreeMap
pub mod Protocol
pub mod Dragon
pub mod Session
pub mod Workshop
pub mod Realtime
pub mod Security
pub mod Server
pub mod Persistence
pub mod Examples
