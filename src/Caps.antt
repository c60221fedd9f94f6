-- ===== src/Caps.antt =====
-- The Caps library as the program uses it (src/ser-helper.cc, src/sock-adap.cc, src/cli.cc call it;
-- its own source is not in the repository). `CapsApi` is its operations and `CapsLaws` what the
-- program relies on; both are parameters of everything that handles messages.
mod Defs
mod Chain
mod Steps
pub use Defs.{Value, word, long, text, null_object, object, Items, nil, cons, snoc, CapsApi}
pub use Defs.{CapsLaws, value_of, ◌▷◌, Parse, ◌>>=◌, next, done, or_default, Reads}
pub use Chain.{Reads-bind, Reads-default, Reads-default_end}
pub use Steps.{uint32_then, uint64_then, string_then, int32_then, int32_or_then, uint32_or_then}
pub use Steps.{caps_then}
