-- ===== src/Prelude/Strip.antt =====
-- Python's white space, `strip`, `count` and `in` on texts.
use Prim.Native.Nat.{ℕ, zero, suc}
use Prim.Native.Char.{Char, code}
use Prim.Native.String.{String}
use mathlib.Core.Path.{◌≡◌, refl}
use mathlib.Core.Bool.{Bool, true, false, ◌&&◌, ◌||◌}
use agent_graph_engine.Prelude.Tests.{leb, ◌==◌, if◌then◌else◌}
use agent_graph_engine.Prelude.Text.{str_eq, starts_with}

-- str.isspace, of one character
unfoldable pub is_space : Char → Bool
is_space c =
    let n = code c in
    leb 9 n && leb n 13
    || leb 28 n && leb n 32
    || n == 133
    || n == 160
    || n == 5760
    || leb 8192 n && leb n 8202
    || n == 8232
    || n == 8233
    || n == 8239
    || n == 8287
    || n == 12288

unfoldable pub lstrip : String → String
unfolding is_space
lstrip String.[] = String.[]
lstrip (String.◌∷◌ c s) = let rest = lstrip s in if is_space c then rest else String.◌∷◌ c s

unfoldable pub rstrip : String → String
unfolding is_space
rstrip String.[] = String.[]
rstrip (String.◌∷◌ c s) =
    let rest = rstrip s in if str_eq rest "" && is_space c then String.[] else String.◌∷◌ c rest

-- s.strip()
abbrev pub strip : String → String
strip s = rstrip (lstrip s)

-- s.count(chr(n))
unfoldable pub count_char : ℕ → String → ℕ
count_char n String.[] = zero
count_char n (String.◌∷◌ c s) = let rest = count_char n s in if code c == n then suc rest else rest

-- t in s, for a text t that is not empty
unfoldable pub has_text : String → String → Bool
has_text t String.[] = false
has_text t (String.◌∷◌ c s) = starts_with (String.◌∷◌ c s) t || has_text t s

strip_runs : strip "  a b\t\n" ≡ "a b"
unfolding lstrip rstrip is_space
strip_runs = refl

text_runs : has_text "&&" "a && b" ≡ true
unfolding has_text
text_runs = refl
