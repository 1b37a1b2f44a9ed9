-- ===== src/Protocol/Injection.antt =====
-- crates/mini-agent-protocol/src/model.rs: the methods of `ContextInjectionRecord`.
use mini_agent_harness.Prelude.{
  Text, true, false, Option, none, some, [], ◌∷◌, ◌++◌, ◌&&◌, codes, text_eq, starts_with,
  strip_prefix, split_once, before_any, ◌||◌, if◌then◌else◌,
}
use mini_agent_harness.Protocol.Model.{ContextInjectionRecord}
use mini_agent_harness.Protocol.Codec.{Json}

infixl 5 ◌>>=◌
abbrev ◌>>=◌ {ℓ κ} : {A : Type ℓ} {B : Type κ} → Option A → (A → Option B) → Option B
none >>= f = none
some a >>= f = f a

abbrev pub metadata_open : Text
metadata_open = codes "<context_injection_metadata>"

abbrev pub metadata_close : Text
metadata_close = codes "</context_injection_metadata>"

-- `fingerprint="`, up to the quote and with it
abbrev pub fingerprint_key : Text
fingerprint_key = codes "fingerprint="

module _ {V : Type 0} (J : Json V) where
  unfoldable pub context_message : ContextInjectionRecord → Text → Text
  context_message r body =
      b'<' ∷ r.id
      ++ (b' ' ∷ fingerprint_key
          ++ (b'"' ∷ r.fingerprint
              ++ (b'"' ∷ b'>' ∷ 10 ∷ metadata_open
                  ++ (J.encode_record r
                      ++ (metadata_close
                          ++ (10 ∷ body ++ (10 ∷ b'<' ∷ b'/' ∷ r.id ++ b'>' ∷ [])))))))

  unfoldable pub replace_context_message_metadata : ContextInjectionRecord → Text → Option Text
  replace_context_message_metadata r text = do
    (opening, rest) ← split_once (10 ∷ []) text
    (_, suffix) ←
        elim (starts_with (b'<' ∷ r.id ++ b' ' ∷ []) opening
          || starts_with (b'<' ∷ r.id ++ b'>' ∷ []) opening) [
            | true ↦ split_once metadata_close rest
            | false ↦ none
          ]
    some (opening ++ (10 ∷ metadata_open ++ (J.encode_record r ++ (metadata_close ++ suffix))))

  unfoldable pub from_context_message : Text → Option ContextInjectionRecord
  from_context_message text = do
    (opening, rest) ← split_once (10 ∷ []) text
    tag ← strip_prefix (b'<' ∷ []) opening
    let slot = before_any (b' ' ∷ b'>' ∷ 9 ∷ []) tag
    (_, quoted) ← split_once (fingerprint_key ++ b'"' ∷ []) opening
    (fingerprint, _) ← split_once (b'"' ∷ []) quoted
    body ← strip_prefix metadata_open rest
    (metadata, _) ← split_once metadata_close body
    found ← J.decode_record metadata
    if text_eq found.id slot && text_eq found.fingerprint fingerprint then some found else none
