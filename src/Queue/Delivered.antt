-- ===== src/Queue/Delivered.antt =====
-- crates/queue/src/lib.rs: a reply is listed for its channel until it is acknowledged, and no reply is
-- longer than what a cut leaves.
use Prim.Native.String
use Prim.Native.String.{count}
use text.Mathlib.TextLemmas.{length-append, length-cons}
use clawpod.Base.{
  ℕ, zero, suc, ◌+◌, ◌≤◌, arith, String, Bool, Option, none, some, List, [], ◌∷◌, Map, ◌==◌,
  if◌then◌else◌, ◌≡◌, ok, format,
}
use clawpod.Base.Maps
use clawpod.Base.Text
use clawpod.Extern.{TextLib}
use clawpod.Plugins.{HookResult}
use clawpod.Queue.Outgoing.{
  OutgoingQueueEnvelope, QueuedOutgoingMessage, PreparedOutbound, first_chars, attach_long,
  prepare_outbound_payload, message_for,
}

-- The messages of a listing that stand at a path.
unfoldable pub listed_at : String → List QueuedOutgoingMessage → List QueuedOutgoingMessage
listed_at path [] = []
listed_at path (m ∷ messages) =
    let rest = listed_at path messages in if m.path == path then m ∷ rest else rest

abbrev to_list : Option QueuedOutgoingMessage → List QueuedOutgoingMessage
to_list none = []
to_list (some m) = m ∷ []

-- What a folder shows at a path to a channel.
abbrev shown : String → String → Option (Option OutgoingQueueEnvelope) → List QueuedOutgoingMessage
shown channel path none = []
shown channel path (some contents) = to_list (message_for channel path contents)

count-first_chars : (n : ℕ) (s : String) → count (first_chars n s) ≤ n
unfolding first_chars
count-first_chars zero s = omega arith
count-first_chars (suc n) String.[] = omega arith
count-first_chars (suc n) (String.◌∷◌ c s) =
    omega (arith, length-cons c (first_chars n s), count-first_chars n s)

count-le-len : (s : String) → count s ≤ Text.len s
unfolding Text.len
count-le-len String.[] = omega arith
count-le-len (String.◌∷◌ c s) = ground (arith, length-cons c s, count-le-len s)

-- A text that is cut, with the note that it is attached.
with_note :
    (n : ℕ) (s : String)
    → count (format (first_chars n s ∷ "\n\n(Full response attached as a file.)" ∷ [])) ≤ n + 37
with_note n s = omega (
  arith,
  length-append (first_chars n s) (format ("\n\n(Full response attached as a file.)" ∷ [])),
  count-first_chars n s,
)

attach_long-bounded :
    (lib : TextLib) (writes : Bool) (path message : String) (files : List String)
    (metadata : Map String) (p : PreparedOutbound)
    → attach_long lib writes path message files metadata ≡ ok p
    → (count p.message ≤ 4037) × (p.metadata ≡ metadata)
unfolding attach_long
attach_long-bounded lib writes path message files metadata p e =
    ground (arith, with_note 4000 message, count-le-len message)

-- A reply that is ready to be sent has at most 4000 characters and the note of an attachment, and the
-- metadata that the plugins left, whatever the agent wrote.
pub prepare_outbound_payload-bounded :
    (lib : TextLib) (exists : String → Bool) (writes : Bool) (path working_directory : String)
    (transformed : HookResult) (p : PreparedOutbound)
    → prepare_outbound_payload lib exists writes path working_directory transformed ≡ ok p
    → (count p.message ≤ 4037) × (p.metadata ≡ transformed.metadata)
unfolding prepare_outbound_payload
prepare_outbound_payload-bounded lib exists writes path working_directory transformed p e =
    attach_long-bounded lib writes path _ _ transformed.metadata p e
