-- ===== src/Demos/Chain/Words.antt =====
-- Which words of its input dyplodemoapp.cpp pushes.
use libdyplo.Prelude.{
  ℕ, zero, suc, ◌≡◌, ◌<◌, false, List, [], ◌∷◌, ◌++◌, refl, arith, ap, ◌∙◌, sym, length,
  append_assoc, append-nil, All,
}
use libdyplo.Effects.{ok}
use libdyplo.Control.License.{is_space, skip_space}
use libdyplo.Demos.Integers.{Text}
use libdyplo.Demos.Chain.{split_word, push_words}

-- A word: some character, and no space.
abbrev pub IsWord : Text → Type 0
IsWord [] = ⊥
IsWord (c ∷ cs) = All (λ d. is_space d ≡ false) (c ∷ cs)

-- Words, each with one space behind it, and then what is not followed by a space.
abbrev pub lines : List Text → Text → Text
lines [] last = last
lines (word ∷ words) last = word ++ (b' ' ∷ lines words last)

split_word-append :
    (word rest : Text)
    → All (λ d. is_space d ≡ false) word
    → split_word (word ++ (b' ' ∷ rest)) ≡ (word, b' ' ∷ rest)
unfolding split_word
split_word-append [] rest h = refl
split_word-append (c ∷ word) rest h = rw (split_word-append word rest h.1, h.0) refl

split_word-last : (word : Text) → All (λ d. is_space d ≡ false) word → split_word word ≡ (word, [])
unfolding split_word
split_word-last [] h = refl
split_word-last (c ∷ word) h = rw (split_word-last word h.1, h.0) refl

skip_space-word : (word rest : Text) → IsWord word → skip_space (word ++ rest) ≡ word ++ rest
unfolding skip_space
skip_space-word [] rest h = absurd h
skip_space-word (c ∷ cs) rest h = rw h.0 refl

skip_space-space : (text : Text) → skip_space (b' ' ∷ text) ≡ skip_space text
unfolding skip_space
skip_space-space text = refl

skip_space-last : (word : Text) → All (λ d. is_space d ≡ false) word → skip_space word ≡ word
unfolding skip_space
skip_space-last [] h = refl
skip_space-last (c ∷ cs) h = rw h.0 refl

push_words-spaced :
    (words : List Text) (rounds : ℕ) (last : Text) (pushed : List Text) (input : Text)
    → skip_space input ≡ skip_space (lines words last)
    → All IsWord words
    → All (λ d. is_space d ≡ false) last
    → length words < rounds
    → push_words rounds input pushed ≡ ok (pushed ++ words)
unfolding push_words
push_words-spaced words zero last pushed input e h h' enough = absurd (omega arith)
push_words-spaced [] (suc rounds) last pushed input e h h' enough =
    rw (push_words, e, skip_space-last last h', split_word-last last h')
      (ap ok (sym (append-nil pushed)))
push_words-spaced (word ∷ words) (suc rounds) last pushed input e h h' enough =
    rw
      (
        push_words,
        e,
        skip_space-word word (b' ' ∷ lines words last) h.0,
        split_word-append word (lines words last) (word_chars word h.0),
      )
      (push_words-spaced words rounds last (pushed ++ (word ∷ [])) (b' ' ∷ lines words last)
          (skip_space-space (lines words last)) h.1 h' (omega arith)
        ∙ ap ok (append_assoc pushed (word ∷ []) words))
  where
    word_chars : (word : Text) → IsWord word → All (λ d. is_space d ≡ false) word
    word_chars [] h = absurd h
    word_chars (c ∷ cs) h = h

-- Of words without spaces in them, each followed by a space, and a last one that is not, `main`
-- pushes all but the last, in order, before it stops. One round more than there are words is enough.
pub push_words_lem :
    (words : List Text) (rounds : ℕ) (last : Text)
    → All IsWord words
    → All (λ d. is_space d ≡ false) last
    → length words < rounds
    → push_words rounds (lines words last) [] ≡ ok words
push_words_lem words rounds last h h' enough =
    push_words-spaced words rounds last [] (lines words last) refl h h' enough
