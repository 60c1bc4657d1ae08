-- ===== src/Server/Client/Keys.antt =====
-- Which streams share a key.
use fastlive.Base.{◌≡◌, ◌≢◌, refl, sym, ap, ap₂, [], ◌∷◌, ◌++◌, Key, codes, All, append_assoc}
use fastlive.Server.Client.{gen_stream_key}

-- Two names of streams before and behind a slash.
slash-split :
    (a b s t : Key)
    → All (λ x. x ≢ 47) a
    → All (λ x. x ≢ 47) b
    → a ++ (47 ∷ s) ≡ b ++ (47 ∷ t)
    → (a ≡ b) × (s ≡ t)
slash-split [] [] s t h k e = (refl, cc)
slash-split [] (x ∷ b) s t h k e = absurd (k.0 (cc))
slash-split (x ∷ a) [] s t h k e = absurd (h.0 (cc))
slash-split (x ∷ a) (y ∷ b) s t h k e =
    let (p, q) = slash-split a b s t h.1 k.1 (cc) in (ap₂ ◌∷◌ (cc) p, q)

append_cancel : (v s t : Key) → v ++ s ≡ v ++ t → s ≡ t
append_cancel [] s t e = e
append_cancel (x ∷ v) s t e = append_cancel v s t (cc)

-- On one host, streams of applications whose names have no slash share a key only if application
-- and stream have the same names.
pub gen_stream_key_unique :
    (vhost app stream app' stream' : Key)
    → All (λ x. x ≢ 47) app
    → All (λ x. x ≢ 47) app'
    → gen_stream_key vhost app stream ≡ gen_stream_key vhost app' stream'
    → (app ≡ app') × (stream ≡ stream')
unfolding gen_stream_key
gen_stream_key_unique vhost app stream app' stream' h k e =
    slash-split app app' stream stream' h k
      (append_cancel (codes "/") _ _ (append_cancel vhost _ _ e))

-- A slash may stand in either name: the stream b/s of the application a and the stream s of the
-- application a/b share a key.
pub gen_stream_key_shared :
    (vhost a b s : Key)
    → gen_stream_key vhost a (b ++ (codes "/" ++ s))
      ≡ gen_stream_key vhost (a ++ (codes "/" ++ b)) s
unfolding gen_stream_key
gen_stream_key_shared vhost a b s =
    ap (λ l. vhost ++ (codes "/" ++ l)) (sym (append_assoc a (codes "/" ++ b) (codes "/" ++ s)))
