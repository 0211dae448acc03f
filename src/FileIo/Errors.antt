-- ===== src/FileIo/Errors.antt =====
-- The text of an IOException (exceptions.hpp, fileio.cpp). A text is its characters.
use libdyplo.Prelude.{ℕ, ◌≡◌, List, [], ◌∷◌, ◌++◌, Bool, true, false, refl, if◌then◌else◌}

-- `buffer` keeps what `what` has put together.
pub record IoException : Type 0 where
  pub m_errno : ℕ
  pub context : List ℕ
  pub buffer : List ℕ

-- The four constructors, with `errno` or the code that is given, and the context or none.
unfoldable pub new_io_exception : ℕ → List ℕ → IoException
new_io_exception code context = record { m_errno = code; context = context; buffer = [] }

abbrev pub is_empty_text : List ℕ → Bool
is_empty_text [] = true
is_empty_text (c ∷ cs) = false

-- " context: "
abbrev pub context_label : List ℕ
context_label = b' ' ∷ b'c' ∷ b'o' ∷ b'n' ∷ b't' ∷ b'e' ∷ b'x' ∷ b't' ∷ b':' ∷ b' ' ∷ []

unfoldable pub what : (ℕ → List ℕ) → IoException → List ℕ × IoException
what strerror x =
    if is_empty_text x.context
    then (strerror x.m_errno, x)
    else if is_empty_text x.buffer
    then (let text = strerror x.m_errno ++ (context_label ++ x.context) in
        (text, record x { buffer = text }))
    else (x.buffer, x)

-- An error with a context tells both, and tells the same again in whatever language `strerror` then
-- answers; one without tells what `strerror` answers.
what_lem :
    (strerror strerror' : ℕ → List ℕ) (code c : ℕ) (cs : List ℕ)
    → let (text, x) = what strerror (new_io_exception code (c ∷ cs)) in
      (text ≡ strerror code ++ (context_label ++ (c ∷ cs)))
      × ((what strerror' x).0 ≡ text)
      × ((what strerror (new_io_exception code [])).0 ≡ strerror code)
unfolding what new_io_exception
what_lem strerror strerror' code c cs = (refl, again (strerror code), refl)
  where
    again :
        (front : List ℕ)
        → (what strerror' (record {
          m_errno = code;
          context = c ∷ cs;
          buffer = front ++ (context_label ++ (c ∷ cs));
        })).0
          ≡ front ++ (context_label ++ (c ∷ cs))
    again [] = refl
    again (d ∷ ds) = refl
