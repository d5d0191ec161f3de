-- ===== src/Storage/Trigger.antt =====
-- The trigger of a reason for safe mode, as storage/state_store.py and execution/recovery.py cut it
-- out: `reason.split(":")[0].strip()`.
use Prim.Native.Char.{code}
use btc_bot.Prelude.{
  ℕ, Bool, true, false, ◌&&◌, ◌||◌, String, Option, none, some, ◌==◌, leb, if◌then◌else◌,
}

abbrev between : ℕ → ℕ → ℕ → Bool
between low high n = leb low n && leb n high

-- the white space of `str.strip`
abbrev is_space : ℕ → Bool
is_space n =
    between 9 13 n
    || between 28 32 n
    || (n == 133)
    || (n == 160)
    || (n == 5_760)
    || between 8_192 8_202 n
    || (n == 8_232)
    || (n == 8_233)
    || (n == 8_239)
    || (n == 8_287)
    || (n == 12_288)

abbrev is_empty : String → Bool
is_empty String.[] = true
is_empty (String.◌∷◌ c s) = false

-- `s.split(":")[0]`
unfoldable pub before_colon : String → String
before_colon String.[] = String.[]
before_colon (String.◌∷◌ c s) =
    let rest = before_colon s in if code c == 58 then String.[] else String.◌∷◌ c rest

unfoldable pub lstrip : String → String
lstrip String.[] = String.[]
lstrip (String.◌∷◌ c s) = let rest = lstrip s in if is_space (code c) then rest else String.◌∷◌ c s

unfoldable pub rstrip : String → String
rstrip String.[] = String.[]
rstrip (String.◌∷◌ c s) =
    let rest = rstrip s in
    if is_empty rest && is_space (code c) then String.[] else String.◌∷◌ c rest

-- The trigger, `""` if there is no reason.
unfoldable pub trigger_of : Option String → String
unfolding before_colon lstrip rstrip
trigger_of none = ""
trigger_of (some reason) = rstrip (lstrip (before_colon reason))

-- The `trigger` of an event: NULL without a reason or for an empty one.
unfoldable pub event_trigger : Option String → Option String
unfolding trigger_of
event_trigger none = none
event_trigger (some reason) = if is_empty reason then none else some (trigger_of (some reason))
