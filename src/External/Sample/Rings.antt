-- ===== src/External/Sample/Rings.antt =====
-- Keyrings as lists of entries, and a keyring that refuses every call.
use bitbucket_cli.Prelude.{String, ◌≡◌, List, [], ◌∷◌, arith, eq_iff, if◌then◌else◌}
use bitbucket_cli.External.{Reply, done, missing, same_entry, KeyringLib}

abbrev pub Secrets : Type 0
Secrets = List (String × String × String)

unfoldable pub find_secret : Secrets → String → String → Reply String
find_secret [] s u = missing
find_secret ((s', u', x) ∷ r) s u = if same_entry s' u' s u then done x else find_secret r s u

unfoldable pub drop_secret : Secrets → String → String → Secrets
drop_secret [] s u = []
drop_secret ((s', u', x) ∷ r) s u =
    let rest = drop_secret r s u in if same_entry s u s' u' then rest else (s', u', x) ∷ rest

find_secret-drop_secret :
    (r : Secrets) (s u s' u' : String)
    → find_secret (drop_secret r s u) s' u'
      ≡ (if same_entry s u s' u' then missing else find_secret r s' u')
unfolding find_secret drop_secret
find_secret-drop_secret [] s u s' u' = ground arith
find_secret-drop_secret ((s1, u1, x) ∷ r) s u s' u' = ground (
  arith,
  find_secret-drop_secret r s u s' u',
  eq_iff s s1,
  eq_iff u u1,
  eq_iff s s',
  eq_iff u u',
  eq_iff s1 s',
  eq_iff u1 u',
)

unfoldable pub set_reply : Secrets → String → String → String → Reply Secrets
set_reply r s u x = done ((s, u, x) ∷ r)

unfoldable pub delete_reply : Secrets → String → String → Reply Secrets
delete_reply r s u = done (drop_secret r s u)

pub get-set_reply :
    (r r' : Secrets) (s u x s' u' : String)
    → set_reply r s u x ≡ done r'
    → find_secret r' s' u' ≡ (if same_entry s u s' u' then done x else find_secret r s' u')
unfolding set_reply find_secret
get-set_reply r r' s u x s' u' e = ground arith

pub get-delete_reply :
    (r r' : Secrets) (s u s' u' : String)
    → delete_reply r s u ≡ done r'
    → find_secret r' s' u' ≡ (if same_entry s u s' u' then missing else find_secret r s' u')
unfolding delete_reply
get-delete_reply r r' s u s' u' e = ground (arith, find_secret-drop_secret r s u s' u')

abbrev pub sample_keyring : KeyringLib
sample_keyring = record {
  Ring = Secrets;
  get = find_secret;
  set = set_reply;
  delete = delete_reply;
  get-set = get-set_reply;
  get-delete = get-delete_reply;
}

-- Tests that run over the sample name this on their `unfolding` line.
unfoldable pub sample_rings : Unit {0}
unfolding find_secret drop_secret set_reply delete_reply
sample_rings = tt
