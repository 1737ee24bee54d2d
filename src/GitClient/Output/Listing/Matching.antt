-- ===== src/GitClient/Output/Listing/Matching.antt =====
-- git/client.go: the regular expression of parseRemotes on the lines that `git remote -v` prints.
use bitbucket_cli.Prelude.{
  and_true, ℕ, ◌≡◌, refl, false, true, Bool, ◌&&◌, not, Option, none, some, [], ◌∷◌, ◌++◌, nat_eq,
  arith,
}
use bitbucket_cli.Prelude.Codes.{Text, codes, text_eq, is_space}
use bitbucket_cli.GitClient.Output.Listing.{
  is_re_space, some_chars, some_spaces, UrlType, push, fetch, url_type, match_remote,
}

-- No white space in a text.
abbrev pub spaceless : Text → Bool
spaceless [] = true
spaceless (c ∷ s) = not (is_space c) && spaceless s

abbrev pub IsWord : Text → Type 0
IsWord s = (spaceless s ≡ true) × (text_eq s [] ≡ false)

re_space : (c : ℕ) → not (is_space c) ≡ true → (is_re_space c ≡ false) × (nat_eq c 10 ≡ false)
re_space c h = ground (arith, h)

no_newline : (c : ℕ) (s : Text) → spaceless (c ∷ s) ≡ true → nat_eq c 10 ≡ false
no_newline c s w = (re_space c (and_true (not (is_space c)) (spaceless s) w).0).1

spaceless_rest : (c : ℕ) (s : Text) → spaceless (c ∷ s) ≡ true → spaceless s ≡ true
spaceless_rest c s w = (and_true (not (is_space c)) (spaceless s) w).1

module _ {B : Type 0} (k : Text → Option B) where
  -- Spaces do not match where there is none.
  some_spaces-word : (word rest : Text) → IsWord word → some_spaces k (word ++ rest) ≡ none
  unfolding some_spaces
  some_spaces-word [] rest (w, ne) = absurd (cc)
  some_spaces-word (c ∷ word) rest (w, ne) = rw ((re_space c (and_true _ _ w).0).0) refl

  -- The longest text before a match is the word, where nothing later matches.
  some_chars-word :
      (word rest : Text) (b : B)
      → IsWord word
      → some_chars (some_spaces k) rest ≡ none
      → some_spaces k rest ≡ some b
      → some_chars (some_spaces k) (word ++ rest) ≡ some (word, b)
  unfolding some_chars
  some_chars-word [] rest b (w, ne) late here = absurd (cc)
  some_chars-word (c ∷ []) rest b (w, ne) late here = rw (no_newline c [] w, late, here) refl
  some_chars-word (c ∷ d ∷ word) rest b (w, ne) late here =
      rw
        (
          no_newline c (d ∷ word) w,
          some_chars-word (d ∷ word) rest b (spaceless_rest c (d ∷ word) w, refl) late here,
        )
        refl

  -- Nothing matches in a word where nothing does after it.
  some_chars-none :
      (word rest : Text)
      → IsWord word
      → some_chars (some_spaces k) rest ≡ none
      → some_spaces k rest ≡ none
      → some_chars (some_spaces k) (word ++ rest) ≡ none
  unfolding some_chars
  some_chars-none [] rest (w, ne) late here = absurd (cc)
  some_chars-none (c ∷ []) rest (w, ne) late here = rw (no_newline c [] w, late, here) refl
  some_chars-none (c ∷ d ∷ word) rest (w, ne) late here =
      rw
        (
          no_newline c (d ∷ word) w,
          some_chars-none (d ∷ word) rest (spaceless_rest c (d ∷ word) w, refl) late here,
          some_spaces-word (d ∷ word) rest (spaceless_rest c (d ∷ word) w, refl),
        )
        refl

abbrev pub type_text : UrlType → Text
type_text push = codes "(push)"
type_text fetch = codes "(fetch)"

-- A line of `git remote -v`.
abbrev pub remote_line : Text → Text → UrlType → Text
remote_line name url type = name ++ 9 ∷ (url ++ 32 ∷ type_text type)

abbrev url_and_type : Text → Option (Text × UrlType)
url_and_type = some_chars (some_spaces url_type)

type_found : (t : UrlType) → some_spaces url_type (32 ∷ type_text t) ≡ some t
unfolding some_spaces url_type codes
type_found push = refl
type_found fetch = refl

type_late : (t : UrlType) → some_chars (some_spaces url_type) (32 ∷ type_text t) ≡ none
unfolding some_chars some_spaces url_type codes
type_late push = refl
type_late fetch = refl

url_late : (t : UrlType) → some_chars (some_spaces url_and_type) (32 ∷ type_text t) ≡ none
unfolding some_chars some_spaces url_type codes
url_late push = refl
url_late fetch = refl

url_here : (t : UrlType) → some_spaces url_and_type (32 ∷ type_text t) ≡ none
unfolding some_chars some_spaces url_type codes
url_here push = refl
url_here fetch = refl

url_found :
    (url : Text) (t : UrlType)
    → IsWord url
    → some_spaces url_and_type (9 ∷ (url ++ 32 ∷ type_text t)) ≡ some (url, t)
unfolding some_spaces
url_found url t w =
    rw
      (
        some_spaces-word url_and_type url (32 ∷ type_text t) w,
        some_chars-word url_type url (32 ∷ type_text t) t w (type_late t) (type_found t),
      )
      refl

none_later :
    (url : Text) (t : UrlType)
    → IsWord url
    → some_chars (some_spaces url_and_type) (9 ∷ (url ++ 32 ∷ type_text t)) ≡ none
unfolding some_chars
none_later url t w =
    rw
      (
        some_chars-none url_and_type url (32 ∷ type_text t) w (url_late t) (url_here t),
        some_spaces-word url_and_type url (32 ∷ type_text t) w,
      )
      refl

pub match_remote-line :
    (name url : Text) (t : UrlType)
    → IsWord name
    → IsWord url
    → match_remote (remote_line name url t) ≡ some (name, (url, t))
unfolding match_remote
match_remote-line name url t n u =
    some_chars-word url_and_type name (9 ∷ (url ++ 32 ∷ type_text t)) (url, t) n
      (none_later url t u) (url_found url t u)
