-- ===== src/Prelude/Text.antt =====
-- The operations of Python's `str` that the program uses, over native strings.
use Prim.Native.Nat.{ℕ, zero, suc, ◌-◌, ◌/◌, ◌%◌}
use Prim.Native.Char.{Char, code}
use Prim.Native.String.{String, len, slice, char_at, ◌++◌}
use mathlib.Core.Path.{◌≡◌, refl}
use mathlib.Core.Bool.{Bool, true, false, ◌&&◌, ◌||◌}
use mathlib.Core.Option.{Option, none, some}
use mathlib.Core.List.{List, [], ◌∷◌}
use agent_graph_engine.Prelude.Tests.{ltb, leb, if◌then◌else◌}
pub use text.Mathlib.Text.{◌==◌ as str_eq, starts_with}

-- s.endswith(t)
unfoldable pub ends_with : String → String → Bool
ends_with s t = str_eq (slice s (len s - len t) (len s)) t

-- s[:-1], for a text whose last character is ASCII
unfoldable pub drop_last : String → String
drop_last s = slice s 0 (len s - 1)

abbrev lower_letters : String
lower_letters = "abcdefghijklmnopqrstuvwxyz"

lower_char : Char → Char
lower_char c = if leb 65 (code c) && leb (code c) 90 then char_at lower_letters (code c - 65) else c

-- s.lower(), on ASCII text
unfoldable pub lower : String → String
unfolding lower_char
lower String.[] = String.[]
lower (String.◌∷◌ c s) = String.◌∷◌ (lower_char c) (lower s)

digit : ℕ → Char
digit d = char_at "0123456789" d

-- str(n): one digit a round, with n + 1 rounds at hand
show_from : ℕ → ℕ → String
unfolding digit
show_from zero n = ""
show_from (suc f) n =
    let more = show_from f (n / 10) ++ String.◌∷◌ (digit (n % 10)) "" in
    if ltb n 10 then String.◌∷◌ (digit n) "" else more

unfoldable pub show : ℕ → String
unfolding show_from
show n = show_from (suc n) n

-- x in xs, for texts
abbrev pub contains : List String → String → Bool
contains [] a = false
contains (x ∷ xs) a = str_eq x a || contains xs a

abbrev pub same_option : Option String → Option String → Bool
same_option none none = true
same_option (some a) (some b) = str_eq a b
same_option _ _ = false

lower_runs : lower "START_9" ≡ "start_9"
unfolding lower
lower_runs = refl

show_runs : show 1207 ≡ "1207"
unfolding show
show_runs = refl

ends_runs : ends_with "scope.*" ".*" ≡ true
unfolding ends_with
ends_runs = refl

drop_runs : drop_last "scope.*" ≡ "scope."
unfolding drop_last
drop_runs = refl
