-- ===== src/Tests/Admin.antt =====
-- A wire format with its round trip, a service that counts its orders, and networks, for
-- adminapi/renew.go.
use go_certs_manager.Base.{
  List, Option, Text, [], ap, arith, codes, none, refl, some, subst, suc, zero, ℕ, ◌∙◌, ◌∷◌, ◌≡◌,
}
use go_certs_manager.AdminApi.{
  Attempt, RenewRequest, RenewResult, Wire, read_limited, refused, serve_renewal,
  write_renew_result,
}
use go_certs_manager.AdminApi.Classified.{RoundTrips, exit_of, renew_outcome-write_renew_result}
use go_certs_manager.AdminApi.Client.{Answer, answered, renew, renew_outcome}
use go_certs_manager.AdminApi.Spent.{IsTold, IsTransport, renew-IsTold}
use go_certs_manager.Effects.{order_not_persisted}

-- Each byte plus one, with a zero at the end of a text.
unfoldable pack_text : Text → Text → Text
pack_text [] rest = 0 ∷ rest
pack_text (c ∷ s) rest = suc c ∷ pack_text s rest

unfoldable pack : List Text → Text
unfolding pack_text
pack [] = []
pack (t ∷ ts) = pack_text t (pack ts)

unfoldable add_byte : ℕ → List Text → List Text
add_byte c [] = []
add_byte c (t ∷ ts) = (c ∷ t) ∷ ts

unfoldable unpack : Text → List Text
unfolding add_byte
unpack [] = []
unpack (zero ∷ s) = [] ∷ unpack s
unpack (suc c ∷ s) = add_byte c (unpack s)

unpack-pack_text : (t rest : Text) → unpack (pack_text t rest) ≡ t ∷ unpack rest
unfolding unpack pack_text add_byte
unpack-pack_text [] rest = refl
unpack-pack_text (c ∷ t) rest = rw (unpack-pack_text t rest)

unpack-pack : (ts : List Text) → unpack (pack ts) ≡ ts
unfolding pack unpack
unpack-pack [] = refl
unpack-pack (t ∷ ts) = unpack-pack_text t (pack ts) ∙ ap (◌∷◌ t) (unpack-pack ts)

unfoldable read_result : List Text → Option RenewResult
read_result (status ∷ message ∷ error ∷ renewed) =
    some (record { status = status; message = message; error = error; renewed = renewed })
read_result ts = none

abbrev wire : Wire
wire = record {
  encode_result = λ r. pack (r.status ∷ r.message ∷ r.error ∷ r.renewed);
  decode_result = λ s. read_result (unpack s);
  encode_domain = λ d. some d;
  decode_domain = λ s. s;
  query_domain = λ url. some [];
  error_text = λ e. codes "failed";
  print_number = λ n. n ∷ [];
}

wire-RoundTrips : RoundTrips wire
unfolding read_result
wire-RoundTrips r = rw (unpack-pack (r.status ∷ r.message ∷ r.error ∷ r.renewed))

-- The CA signs, and storage does not take the chain.
abbrev spend : Text → ℕ → Attempt × ℕ
spend domain orders = (refused order_not_persisted, suc orders)

abbrev deliver : RenewRequest → ℕ → Answer × ℕ
deliver r orders =
    let x = serve_renewal wire (some spend) r orders in (answered x.0.code x.0.body, x.1)

code_of : Answer → ℕ
code_of (answered code body) = code
code_of a = 0

body_of : Answer → Text
body_of (answered code body) = body
body_of a = []

deliver-IsTransport : IsTransport (serve_renewal wire (some spend)) deliver
unfolding code_of body_of
deliver-IsTransport = record {
  unsent = λ r s text e. absurd (ground arith);
  connected = λ r s d text e. absurd (ground arith);
  arrived = λ r s code body e.
      ap
        (λ a.
          (record { code = code_of a; body = body_of a }, (serve_renewal wire (some spend) r s).1))
        e;
}

renew_outcome-write_renew_result_example :
    (renew_outcome wire
      (write_renew_result wire (codes "shop.example") (refused order_not_persisted)).code
      (write_renew_result wire (codes "shop.example") (refused order_not_persisted)).body).1
    ≡ exit_of (refused order_not_persisted)
renew_outcome-write_renew_result_example =
    renew_outcome-write_renew_result wire wire-RoundTrips (codes "shop.example")
      (refused order_not_persisted)

nothing_asked : (query : Text) → some [] ≡ some query → query ≡ []
nothing_asked query e = ground arith

fits_shop :
    (body : Text)
    → some (codes "shop.example") ≡ some body
    → read_limited body ≡ codes "shop.example"
unfolding read_limited
fits_shop body e =
    subst (λ o. read_limited (elim o [ none ↦ [] | some b ↦ b ]) ≡ codes "shop.example") e refl

renew-IsTold_example : IsTold (some spend) (codes "shop.example") 7 (
  (renew wire deliver [] (codes "https://node/renew") (codes "shop.example") 7).0.1,
  (renew wire deliver [] (codes "https://node/renew") (codes "shop.example") 7).1,
)
renew-IsTold_example =
    renew-IsTold wire wire-RoundTrips (some spend) deliver deliver-IsTransport
      (codes "https://node/renew") (codes "shop.example") 7 nothing_asked fits_shop []
