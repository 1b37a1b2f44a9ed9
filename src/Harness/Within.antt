-- ===== src/Harness/Within.antt =====
-- crates/mini-agent-core/src/harness.rs: the limits of a message of each kind, and their checks.
use mini_agent_harness.Prelude.{
  ℕ, ◌+◌, ◌*◌, ◌≤◌, ◌≡◌, refl, sym, ◌∙◌, inl, inr, true, false, Bool-cases, Option, none, some,
  is_some, List, [], ◌∷◌, All, length, ltb, arith, if◌then◌else◌,
}
use mini_agent_harness.Protocol.{
  Json, Message, ContextInjectionRecord, LimitExceeded, LimitKind, context, user, assistant, tool,
}
use mini_agent_harness.Protocol.Injection
use mini_agent_harness.Harness.Config.{HarnessConfig}
use mini_agent_harness.Harness.History.{
  max_context_injection_bytes, context_limit, first_of, check_limit, check_message, check_messages,
}

-- a check that passes
pub check_limit-bound :
    (kind : LimitKind) (limit n : ℕ) → check_limit kind limit n ≡ none → n ≤ limit
unfolding check_limit
check_limit-bound kind limit n q = elim (Bool-cases (ltb limit n)) [
  | inr small ↦ ground (arith, small)
  | inl large ↦ cc (sym (check_limit-over large) ∙ q)
]
  where
    check_limit-over :
        ltb limit n ≡ true
        → check_limit kind limit n ≡ some (record { kind = kind; limit = limit; actual = n })
    check_limit-over e = rw e refl

pub later : (a b : Option LimitExceeded) → is_some (first_of a b) ≡ false → is_some b ≡ false
later none b h = h
later (some e) b h = cc

pub first : (a b : Option LimitExceeded) → is_some (first_of a b) ≡ false → is_some a ≡ false
first none b h = refl
first (some e) b h = cc

pub both :
    (a b : Option LimitExceeded)
    → is_some a ≡ false
    → is_some b ≡ false
    → is_some (first_of a b) ≡ false
both none b g h = h
both (some e) b g h = cc

module _ {V : Type 0} (J : Json V) where
  -- the check of every message passes
  abbrev pub Passes : HarnessConfig → List (Message V) → Type 0
  Passes config ms = is_some (check_messages J config ms) ≡ false

  -- the limit of a context of that many bytes: that of the injections where the text carries the
  -- record of one, and else that of a context item
  abbrev pub FitsContext : HarnessConfig → Option ContextInjectionRecord → ℕ → Type 0
  FitsContext config (some injection) bytes = bytes ≤ 64 * 1024
  FitsContext config none bytes = bytes ≤ config.max_context_item_bytes

  -- the limits of a message of each kind
  abbrev pub FitsLimits : HarnessConfig → Message V → Type 0
  FitsLimits config (context t) = FitsContext config (Injection.from_context_message J t) (length t)
  FitsLimits config (user t) = length t ≤ config.max_user_input_bytes
  FitsLimits config (assistant r t calls) =
      (length r + length t + J.calls_len calls ≤ config.max_model_response_bytes)
      × (length calls ≤ config.max_tool_calls_per_step)
  FitsLimits config (tool id name content e o) = length content ≤ config.max_tool_output_bytes

  -- every message is within its limits
  abbrev pub IsWithin : HarnessConfig → List (Message V) → Type 0
  IsWithin config ms = All (FitsLimits config) ms

  check_message-FitsLimits :
      (config : HarnessConfig) (m : Message V)
      → is_some (check_message J config m) ≡ false
      → FitsLimits config m
  unfolding check_message context_limit check_limit
  check_message-FitsLimits config (context t) h = go (Injection.from_context_message J t) h
    where
      go :
          (r : Option ContextInjectionRecord)
          → is_some (
              check_limit LimitKind.context_item_bytes
                (if is_some r then max_context_injection_bytes else config.max_context_item_bytes)
                (length t))
            ≡ false
          → FitsContext config r (length t)
      go none h = ground (arith, h)
      go (some r) h = ground (arith, h)
  check_message-FitsLimits config (user t) h = ground (arith, h)
  check_message-FitsLimits config (assistant r t calls) h = ground (arith, h)
  check_message-FitsLimits config (tool id name content e o) h = ground (arith, h)

  FitsLimits-check_message :
      (config : HarnessConfig) (m : Message V)
      → FitsLimits config m
      → is_some (check_message J config m) ≡ false
  unfolding check_message context_limit check_limit
  FitsLimits-check_message config (context t) h = go (Injection.from_context_message J t) h
    where
      go :
          (r : Option ContextInjectionRecord)
          → FitsContext config r (length t)
          → is_some (
              check_limit LimitKind.context_item_bytes
                (if is_some r then max_context_injection_bytes else config.max_context_item_bytes)
                (length t))
            ≡ false
      go none h = ground (arith, h)
      go (some r) h = ground (arith, h)
  FitsLimits-check_message config (user t) h = ground (arith, h)
  FitsLimits-check_message config (assistant r t calls) h = ground (arith, h.0, h.1)
  FitsLimits-check_message config (tool id name content e o) h = ground (arith, h)

  pub Passes-IsWithin :
      (config : HarnessConfig) (ms : List (Message V)) → Passes config ms → IsWithin config ms
  unfolding check_messages
  Passes-IsWithin config [] h = tt
  Passes-IsWithin config (m ∷ ms) h = (
    check_message-FitsLimits config m
        (first (check_message J config m) (check_messages J config ms) h),
    Passes-IsWithin config ms (later (check_message J config m) (check_messages J config ms) h),
  )

  pub IsWithin-Passes :
      (config : HarnessConfig) (ms : List (Message V)) → IsWithin config ms → Passes config ms
  unfolding check_messages
  IsWithin-Passes config [] h = refl
  IsWithin-Passes config (m ∷ ms) h =
      both (check_message J config m) (check_messages J config ms)
        (FitsLimits-check_message config m h.0) (IsWithin-Passes config ms h.1)
