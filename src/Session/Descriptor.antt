-- ===== src/Session/Descriptor.antt =====
-- src/agent-runtime/session/domain/descriptor.ts: a driver may claim no behaviour that depends on
-- a capability it lacks. What its type already says of a descriptor is not tested again.
pub mod Defaults
use Prim.Native.Nat.{ℕ}
use Prim.Native.Char.{code}
use specrails_core.Prelude.{
  String, Bool, true, false, not, ◌&&◌, ◌||◌, Option, none, some, List, [], ◌∷◌, leb, ◌==◌, length,
  all, any, Result, ok, guard, ◌>>=◌, ◌>>◌,
}
use specrails_core.Prelude.Texts.{codes}
use specrails_core.Session.Types.{
  SessionErrorCode, InterruptSupport, DriverCapabilities, DriverDescriptor,
}
use specrails_core.Session.Policy.{is_supported}

abbrev pub between : ℕ → ℕ → ℕ → Bool
between low high c = leb low c && leb c high

-- `[a-z0-9]`
abbrev pub starts_id : ℕ → Bool
starts_id c = between b'a' b'z' c || between b'0' b'9' c

-- `[a-z0-9._-]`
abbrev pub continues_id : ℕ → Bool
continues_id c = starts_id c || c == b'.' || c == b'_' || c == b'-'

-- `/^[a-z0-9][a-z0-9._-]{0,63}$/`
abbrev pub matches_id : List ℕ → Bool
matches_id [] = false
matches_id (c ∷ cs) = starts_id c && leb (length cs) 63 && all continues_id cs

-- The characters that `trim` removes.
abbrev pub is_space : ℕ → Bool
is_space c =
    between 9 13 c
    || c == 32
    || c == 160
    || c == 0x1680
    || between 0x2000 0x200a c
    || c == 0x2028
    || c == 0x2029
    || c == 0x202f
    || c == 0x205f
    || c == 0x3000
    || c == 0xfeff

abbrev pub is_native : Option InterruptSupport → Bool
is_native (some InterruptSupport.native) = true
is_native _ = false

unfoldable pub validate_descriptor : DriverDescriptor → Result SessionErrorCode (Unit {0})
validate_descriptor descriptor = do
  let caps = descriptor.capabilities
  guard (matches_id (codes descriptor.id)) SessionErrorCode.internal
  guard (not (all is_space (codes descriptor.display_name))) SessionErrorCode.internal
  guard
      (not (
        not (is_supported caps.subagents)
        && (caps.subagent_disable || caps.autonomous_continuation)))
      SessionErrorCode.internal
  guard (not (not caps.resident && caps.native_input_queue)) SessionErrorCode.internal
  guard (not (not caps.resident && caps.autonomous_continuation)) SessionErrorCode.internal
  guard (not (is_native caps.interrupt && not caps.resident)) SessionErrorCode.internal
