-- ===== src/Work/Shlex.antt =====
-- Python's `shlex.split(text, posix=True)`, which work/commands.py calls: words are parted by
-- white space, quotes are removed, and a backslash keeps the next character.
use Prim.Native.Char.{Char, code}
use Prim.Native.String.{◌++◌ as append}
use agent_graph_engine.Prelude.{
  ℕ, String, ◌≡◌, refl, Bool, true, false, not, ◌&&◌, ◌||◌, Option, none, some, List, [], ◌∷◌, ◌==◌,
  if◌then◌else◌,
}
use agent_graph_engine.Prelude.Text.{str_eq}

-- Where the reader stands: between words, in one, inside a quote, or after a backslash, with the
-- place it goes back to.
pub data Place : Type 0 where
  between within : Place
  quoted_by : ℕ → Place
  escaping : Place
  escaping_in : ℕ → Place

pub record Reader : Type 0 where
  pub place : Place
  pub token : String
  -- a quote was seen, so that the token stands even if it is empty
  pub quoted : Bool

abbrev start : Reader
start = record { place = between; token = ""; quoted = false }

abbrev pub is_blank : ℕ → Bool
is_blank n = n == 32 || n == 9 || n == 13 || n == 10

abbrev pub is_quote : ℕ → Bool
is_quote n = n == 34 || n == 39

abbrev single : Char → String
single c = String.◌∷◌ c ""

abbrev add : Char → Reader → Reader
add c r = record r { token = append r.token (single c); place = within }

-- A character between words, or in one that no quote holds.
abbrev plain : Char → Reader → Reader
plain c r =
    if is_quote (code c)
    then record r { place = quoted_by (code c); quoted = true }
    else if code c == 92
    then record r { place = escaping }
    else add c r

-- The next character; a word that it ends comes with the fresh reader.
unfoldable pub read : Char → Reader → Option String × Reader
read c r = elim r.place [
  | between ↦ if is_blank (code c) then (none, r) else (none, plain c r)
  | within ↦
      if is_blank (code c)
      then (if str_eq r.token "" && not r.quoted then none else some r.token, start)
      else (none, plain c r)
  | quoted_by q ↦
      if code c == q
      then (none, record r { place = within })
      else if code c == 92 && q == 34
      then (none, record r { place = escaping_in q })
      else (none, record (add c r) { place = quoted_by q })
  | escaping ↦ (none, add c r)
  | escaping_in q ↦
      let kept = if code c == 92 || code c == q then r.token else append r.token "\\" in
      (none, record r { token = append kept (single c); place = quoted_by q })
]

abbrev last_word : Reader → Option (List String)
last_word r = elim r.place [
  | between ↦ some []
  | within ↦ if str_eq r.token "" && not r.quoted then some [] else some (r.token ∷ [])
  | quoted_by q ↦ none
  | escaping ↦ none
  | escaping_in q ↦ none
]

abbrev prepend : Option String → Option (List String) → Option (List String)
prepend word none = none
prepend none (some words) = some words
prepend (some word) (some words) = some (word ∷ words)

unfoldable pub words_from : String → Reader → Option (List String)
words_from String.[] r = last_word r
words_from (String.◌∷◌ c s) r = let next = read c r in prepend next.0 (words_from s next.1)

-- shlex.split; none where it raises ValueError
unfoldable pub split_words : String → Option (List String)
split_words text = words_from text start

words_run :
    split_words "git  diff 'a b' x\\ y \"\" --c=\"d\""
    ≡ some ("git" ∷ "diff" ∷ "a b" ∷ "x y" ∷ "" ∷ "--c=d" ∷ [])
unfolding split_words words_from read
words_run = refl

open_quote_run : split_words "pytest 'a" ≡ none
unfolding split_words words_from read
open_quote_run = refl
