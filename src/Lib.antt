-- ===== src/Lib.antt =====
-- Pinnacle is a Wayland compositor. Its windows carry tags, a window is in view while one of its
-- tags is active, and external config processes drive it by gRPC: they add and switch tags, set
-- rules for new windows and answer layout requests. This library models the part of the
-- compositor that decides: which tags are where, which window has the focus, in which mode a
-- window is laid out, and how a new window gets from its first appearance to its initial
-- configure.
--
-- State models the fields of `Pinnacle` (src/state.rs) that the operations here read or write.
-- Windows, outputs, tags and counters are shared objects in the code (`Rc`, `Arc`); here they are
-- numbers, the pointers, and a function from pointers holds the contents, so that a write through
-- one holder is seen by all. What leaves the compositor (signals to configs, requests to clients,
-- configures, renders) is a log of effects, oldest first. A panic is `none`.
--
-- Deps holds what comes from other crates, as records of operations with their laws: the ordered
-- sets and maps of indexmap and smithay's test for an empty size. Common has the numbers, lists
-- and integers; ℤ with wrap-around at 32 bits stands for `i32`, and a `u32` counter is taken
-- modulo 2 ^ 32.
--
-- Tag models src/tag.rs; Tag.Api the operations of src/api/tag.rs except for the last,
-- `move_to_output`, which is in Tag.Move. Output models the tags of an output in src/output.rs.
-- Focus models the two focus stacks of src/focus.rs. Window.LayoutMode and Window.State model
-- src/window/window_state.rs, Window.Configure what a window tells its client there and in
-- src/window.rs, and Window.Queries what it says of its tags and output. Window.Rules models
-- src/window/rules.rs (Requests, Apply) and the handler of a rule client's answer in
-- src/api/window/v1.rs (Finished). Window.Api models the operations on a window's tags in
-- src/api/window.rs. Layout.Request models the request for a layout in src/layout.rs and the
-- stacking order of src/handlers/xwayland.rs, Layout.Pending the queues of src/layout.rs that
-- wait for a layout and the loop of `update_layout` that takes transactions off them. Transaction
-- models src/util/transaction.rs, with the strong count of the pointer that a transaction's
-- windows share. Layout.Tree models the tree of a layout in src/layout/tree.rs: how
-- `LayoutTree::new` builds it, and Layout.Tree.Walk how `compute_geos` gives its tiles out, round
-- by round. Layout.Placing models where a window is to be: `compute_window_geometry` of
-- src/window.rs, the operations of src/window/layout.rs (Layout.Placing.Updates), and
-- `update_windows_from_tree` of src/layout.rs, which gives the tiles of a layout to windows
-- (Layout.Placing.FromTree); its Desktop adds to `Pinnacle` the space and the queues of the
-- layout state. Layout.Received models how such a tree comes out of a client's message
-- (src/api/layout/v1.rs). Client models the layouts of the Rust client library: Client.Node its
-- nodes (api/rust/src/layout.rs), Client.Sent the message they are sent as, Client.Generators the
-- layouts of api/rust/src/layout/generators.rs (Fair in Client.Generators.Fair, whose arithmetic
-- in floating-point numbers is a parameter), and Client.Cycle the one that switches between
-- layouts. Grab models the size that a window gets while one of its edges is dragged
-- (src/grab/resize_grab.rs). InDirection models `closest_in_dir` of src/util/rect.rs, by which
-- windows and outputs are found in a direction. Diff.Lcs models the longest common subsequence of
-- src/util/treediff.rs, by which layout trees are compared, and Diff.Tree the tests on two nodes
-- there; the trees of the crate slab_tree are read from a node down. Focus.ZOrder models the
-- z-index stack in src/focus.rs. Input models src/input/bind.rs: Bind has the modifiers and the
-- data of a bind, Keybinds and Mousebinds the two kinds of binds (`key`, `btn`), and Layers the
-- bind layers and the settings of a bind.
--
-- The operations on tags end by asking for a layout (Tag.Api calls Layout.Request), and new tags
-- let unmapped windows go on to their rules (Tag.Api calls Window.Rules). The loops of the code
-- are structural recursion here, except for the loop of `update_layout`, which takes its number
-- of rounds: one more than transactions wait in the queue is enough; and for that of
-- `compute_geos`, for which one round more than the layout has tiles is enough.
--
-- Not modelled: the backends, rendering and the protocol glue, which are calls of smithay; the
-- geometry that taffy computes and the distances of src/util/rect.rs, in floating-point numbers,
-- which are parameters; how a tile is resized and how two layout trees are compared; the client
-- libraries but for their layouts, and Snowcap, which are other processes. Nor are the window
-- geometry at the end of `move_to_output`, the mapping and the removal of windows and the
-- handlers of client requests.
--
-- Examples holds a small compositor, runs of the model on it and instances of the theorems.
pub mod Common
pub mod Geometry
pub mod Deps
pub mod Window
pub mod Focus
pub mod State
pub mod Tag
pub mod Output
pub mod Layout
pub mod Input
pub mod Transaction
pub mod Client
pub mod Grab
pub mod InDirection
pub mod Diff
pub mod Examples
