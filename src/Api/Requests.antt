-- ===== src/Api/Requests.antt =====
-- api/client.go: what a request that is answered leaves.
use bitbucket_cli.Prelude.{
  ◌≡◌, refl, ap, sym, subst, String, Bool, true, false, not, Option, none, [], ◌∷◌, ◌++◌, nat_eq,
  if◌then◌else◌,
}
use bitbucket_cli.Prelude.Codes.{Text}
use bitbucket_cli.Prelude.Result.{Result, ok}
use bitbucket_cli.Action.{lift}
use bitbucket_cli.Action.Inversion.{bind_ok, guard_ok}
use bitbucket_cli.Api.{
  HttpLib, Request, Response, Session, present, do_request, rest_headers, rest_with_url, is_success,
  decoded,
}

-- The request was sent, the server gave the response, and nothing was printed.
pub record Answered {H : HttpLib} (r : Request) (s t : Session H) (a : Response) : Type 0 where
  pub reply : H.send r s.server ≡ (ok a, t.server)
  pub sent : t.sent ≡ s.sent ++ r ∷ []
  pub out : t.out ≡ s.out
  pub err_out : t.err_out ≡ s.err_out

module _ {H : HttpLib} where
  pub do_request_ok :
      (r : Request) (s : Session H) {a : Response} {t : Session H}
      → do_request r s ≡ (ok a, t)
      → Answered r s t a
  unfolding do_request
  do_request_ok r s h =
      let (_, e, k) = bind_ok (lift (λ s. present (H.new_request r.method r.url))) _ s h in
      record {
        reply = λ i. ((k i).0, (k i).1.server);
        sent = λ i. (sym (ap (λ p. p.1) k) i).sent;
        out = λ i. (sym (ap (λ p. p.1) k) i).out;
        err_out = λ i. (sym (ap (λ p. p.1) k) i).err_out;
      }

abbrev pub rest_request : String → Text → Option Text → Request
rest_request method url body = record {
  method = method;
  url = url;
  headers = rest_headers body;
  body = body;
}

-- Two ends of an action that only read.
either_read :
    {S A : Type 0} (b : Bool) (x y : Result A) (u : S) {a : A} {t : S}
    → (if b then lift (λ s. x) else lift (λ s. y)) u ≡ (ok a, t)
    → (u ≡ t) × ((if b then x else y) ≡ ok a)
either_read true x y u h = (ap (λ p. p.1) h, ap (λ p. p.0) h)
either_read false x y u h = (ap (λ p. p.1) h, ap (λ p. p.0) h)

pub of_not : (b : Bool) → not b ≡ false → b ≡ true
of_not true h = refl
of_not false h = cc

module _ {H : HttpLib} {A : Type 0} where
  -- A call of the API that succeeds sent its one request, and the status of the answer was a success.
  pub rest_with_url_ok :
      (method : String) (url : Text) (body : Option Text) (data_form : Option (Text → Result A))
      (s : Session H) {a : Option A} {t : Session H}
      → rest_with_url method url body data_form s ≡ (ok a, t)
      → (r : Response) × Answered (rest_request method url body) s t r
        × (is_success r.status ≡ true)
        × ((if nat_eq r.status 204 then ok none else decoded data_form r) ≡ ok a)
  unfolding rest_with_url
  rest_with_url_ok method url body data_form s h =
      let request = rest_request method url body in
      let (r, e, k) = bind_ok (do_request request) _ s h in
      let (good, k') = guard_ok (not (is_success r.status)) _ _ _ k in
      let (same, read) = either_read (nat_eq r.status 204) (ok none) (decoded data_form r) _ k' in
      (
        r,
        subst (λ u. Answered request s u r) same (do_request_ok request s e),
        of_not (is_success r.status) good,
        read,
      )
