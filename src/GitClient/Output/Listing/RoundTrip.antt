-- ===== src/GitClient/Output/Listing/RoundTrip.antt =====
-- git/client.go: parseRemotes reads back what `git remote -v` prints.
use mathlib.Core.List.{append_assoc, append-nil}
use bitbucket_cli.Prelude.{
  ◌≡◌, refl, ap, ◌∙◌, sym, false, true, Option, some, List, [], ◌∷◌, ◌++◌, map, arith, All,
}
use bitbucket_cli.Prelude.Codes.{Text, text_eq, skip_space, trim_space_right, trim_space}
use bitbucket_cli.Prelude.Codes.Laws.{text_eq_refl}
use bitbucket_cli.GitUrl.{GitUrl, parse_git_url}
use bitbucket_cli.GitClient.Output.{ListedRemote}
use bitbucket_cli.GitClient.Output.Listing.{
  UrlType, push, fetch, match_remote, set_url, new_remote, add_url, add_parsed, add_line, add_lines,
  parse_remotes,
}
use bitbucket_cli.GitClient.Output.Listing.Matching.{
  spaceless, IsWord, remote_line, match_remote-line,
}

skip_word : (s : Text) → spaceless s ≡ true → skip_space s ≡ s
skip_word [] w = refl
skip_word (c ∷ s) w = ground (arith, w)

trim_word : (s : Text) → spaceless s ≡ true → trim_space_right s ≡ s
trim_word [] w = refl
trim_word (c ∷ s) w = ground (arith, w, trim_word s)

trim_space-word : (s : Text) → IsWord s → trim_space s ≡ s
trim_space-word s (w, ne) = rw (skip_word s w) (trim_word s w)

-- A remote as git prints it: its name, and its two URLs with what they are parsed to.
pub record Printed : Type 0 where
  pub name : Text
  pub fetch_text : Text
  pub push_text : Text
  pub fetch_url : GitUrl
  pub push_url : GitUrl

pub record IsPrinted (parse_url : Text → Option GitUrl) (p : Printed) : Type 0 where
  pub name_word : IsWord p.name
  pub fetch_word : IsWord p.fetch_text
  pub push_word : IsWord p.push_text
  pub fetch_parsed : parse_git_url parse_url p.fetch_text ≡ some p.fetch_url
  pub push_parsed : parse_git_url parse_url p.push_text ≡ some p.push_url

-- `git remote -v`: two lines for each remote.
unfoldable pub listing : List Printed → List Text
listing [] = []
listing (p ∷ rest) =
    remote_line p.name p.fetch_text fetch ∷ remote_line p.name p.push_text push ∷ listing rest

abbrev pub listed : Printed → ListedRemote
listed p = record {
  name = p.name;
  resolved = [];
  fetch_url = some p.fetch_url;
  push_url = some p.push_url;
}

-- No remote has the name of the one before it.
abbrev pub Differ : Text → List Printed → Type 0
Differ name [] = Unit
Differ name (p ∷ rest) = (text_eq p.name name ≡ false) × Differ p.name rest

add_url-append :
    (name : Text) (t : UrlType) (u : GitUrl) (before : List ListedRemote) (r : ListedRemote)
    → add_url name t u (before ++ r ∷ []) ≡ before ++ add_url name t u (r ∷ [])
unfolding add_url
add_url-append name t u [] r = refl
add_url-append name t u (q ∷ []) r = refl
add_url-append name t u (q ∷ q' ∷ before) r =
    ap (λ l. q ∷ l) (add_url-append name t u (q' ∷ before) r)

module _ (parse_url : Text → Option GitUrl) where
  line_added :
      (name url : Text) (t : UrlType) (u : GitUrl) (remotes : List ListedRemote)
      → IsWord name
      → IsWord url
      → parse_git_url parse_url url ≡ some u
      → add_line parse_url (match_remote (remote_line name url t)) remotes
        ≡ add_url name t u remotes
  unfolding add_line add_parsed
  line_added name url t u remotes n w parsed =
      rw (match_remote-line name url t n w, trim_space-word name n, trim_space-word url w, parsed)
        refl

  -- The two lines of a remote.
  added : Printed → List ListedRemote → List ListedRemote
  added p remotes = add_url p.name push p.push_url (add_url p.name fetch p.fetch_url remotes)

  lines_added :
      (p : Printed) (rest : List Printed) (remotes : List ListedRemote)
      → IsPrinted parse_url p
      → add_lines parse_url (listing (p ∷ rest)) remotes
        ≡ add_lines parse_url (listing rest) (added p remotes)
  unfolding add_lines listing added
  lines_added p rest remotes v =
      ap
        (λ l.
          add_lines parse_url (listing rest)
            (add_line parse_url (match_remote (remote_line p.name p.push_text push)) l))
        (line_added p.name p.fetch_text fetch p.fetch_url remotes v.name_word v.fetch_word
          v.fetch_parsed)
      ∙ ap (add_lines parse_url (listing rest)) (
          line_added p.name p.push_text push p.push_url (add_url p.name fetch p.fetch_url remotes)
            v.name_word v.push_word v.push_parsed)

  added_first : (p : Printed) → added p [] ≡ listed p ∷ []
  unfolding added add_url set_url
  added_first p = rw (text_eq_refl p.name) refl

  fetch_one :
      (p : Printed) (r : ListedRemote)
      → text_eq p.name r.name ≡ false
      → add_url p.name fetch p.fetch_url (r ∷ [])
        ≡ r ∷ set_url fetch p.fetch_url (new_remote p.name) ∷ []
  unfolding add_url
  fetch_one p r other = rw other refl

  push_one :
      (p : Printed)
      → add_url p.name push p.push_url (set_url fetch p.fetch_url (new_remote p.name) ∷ [])
        ≡ listed p ∷ []
  unfolding add_url set_url
  push_one p = rw (text_eq_refl p.name) refl

  added_next :
      (p : Printed) (before : List ListedRemote) (r : ListedRemote)
      → text_eq p.name r.name ≡ false
      → added p (before ++ r ∷ []) ≡ (before ++ r ∷ []) ++ listed p ∷ []
  unfolding added
  added_next p before r other =
      let new = set_url fetch p.fetch_url (new_remote p.name) in
      let pushed = add_url p.name push p.push_url in
      ap pushed (
        add_url-append p.name fetch p.fetch_url before r
        ∙ ap (λ l. before ++ l) (fetch_one p r other)
        ∙ sym (append_assoc before (r ∷ []) (new ∷ [])))
      ∙ add_url-append p.name push p.push_url (before ++ r ∷ []) new
      ∙ ap (λ l. (before ++ r ∷ []) ++ l) (push_one p)

  add_lines-listing :
      (rest : List Printed) (before : List ListedRemote) (r : ListedRemote)
      → All (IsPrinted parse_url) rest
      → Differ r.name rest
      → add_lines parse_url (listing rest) (before ++ r ∷ [])
        ≡ (before ++ r ∷ []) ++ map listed rest
  unfolding add_lines listing
  add_lines-listing [] before r v d = sym (append-nil (before ++ r ∷ []))
  add_lines-listing (p ∷ rest) before r (v, vs) (other, d) =
      lines_added p rest (before ++ r ∷ []) v
      ∙ ap (add_lines parse_url (listing rest)) (added_next p before r other)
      ∙ add_lines-listing rest (before ++ r ∷ []) (listed p) vs d
      ∙ append_assoc (before ++ r ∷ []) (listed p ∷ []) (map listed rest)

-- `parseRemotes` reads from the lines of `git remote -v` the remotes that were printed, in order, with
-- both URLs, where no remote has the name of the one before it, names and URLs have no white space,
-- and the URLs are parsed.
pub parse_remotes-listing :
    (parse_url : Text → Option GitUrl) (remotes : List Printed)
    → All (IsPrinted parse_url) remotes
    → Differ [] remotes
    → parse_remotes parse_url (listing remotes) ≡ map listed remotes
unfolding parse_remotes add_lines listing
parse_remotes-listing parse_url [] v d = refl
parse_remotes-listing parse_url (p ∷ rest) (v, vs) (_, d) =
    lines_added parse_url p rest [] v
    ∙ ap (add_lines parse_url (listing rest)) (added_first parse_url p)
    ∙ add_lines-listing parse_url rest [] (listed p) vs d
