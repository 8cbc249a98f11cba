-- ===== src/Growth/Tests.antt =====
-- The reading of a cookie header, at a session with a space in it.
use bazos.Base.{
  split, cut, ℕ, ◌≡◌, ◌≢◌, refl, Option, none, some, List, [], ◌∷◌, ◌++◌, map, if◌then◌else◌, ◌==◌,
  nat_eq, codes_eq, codes, trim, All, arith, trim_start, is_space,
}
use bazos.Growth.{pick_gsid, GsidPick, cookie, read_cookie}
use bazos.Growth.Cookies.{Cookie, IsCookie, cookie_header, gsid_cookie, pick_gsid-cookie_header}

-- An encoding and its inverse, for texts whose only special character is a space.
abbrev escape : List ℕ → List ℕ
escape cs = map (λ c. if c == b' ' then b'+' else c) cs

abbrev unescape : List ℕ → Option (List ℕ)
unescape cs = some (map (λ c. if c == b'+' then b' ' else c) cs)

abbrev session : List ℕ
session = codes "a b"

abbrev theme : Cookie
theme = record { name = codes "ngsid"; value = codes "1" }

theme-IsCookie : IsCookie theme
unfolding bazos.Base.ℕ_discrete
theme-IsCookie = (
  (refl, (refl, (refl, (refl, (refl, tt))))),
  (refl, (refl, (refl, (refl, (refl, tt))))),
  (refl, tt),
)

session-IsCookie : IsCookie (gsid_cookie (escape session))
unfolding bazos.Base.ℕ_discrete
session-IsCookie = (
  (refl, (refl, (refl, (refl, tt)))),
  (refl, (refl, (refl, (refl, tt)))),
  (refl, (refl, (refl, tt))),
)

pick_gsid-cookie_header_example :
    pick_gsid unescape
      (some (cookie_header ((theme ∷ []) ++ gsid_cookie (escape session) ∷ (theme ∷ []))))
      (some (codes "q"))
    ≡ some (record { gsid = session; gsid_source = cookie })
unfolding trim trim_start is_space bazos.Base.ℕ_discrete bazos.Base.Codes-discrete
pick_gsid-cookie_header_example =
    pick_gsid-cookie_header escape unescape (theme ∷ []) (theme ∷ []) session (some (codes "q"))
      (λ e. cc e) (λ e. cc e) refl refl (theme-IsCookie, (session-IsCookie, (theme-IsCookie, tt)))
      (refl, tt)

-- A value with a broken escape is taken as it stands.
raw_value :
    read_cookie (λ cs. none) (some (codes "x=1; gsid = 5% ")) (codes "gsid") ≡ some (codes "5%")
unfolding read_cookie split cut bazos.Growth.read_parts bazos.Growth.cookie_value trim trim_start
    is_space bazos.Base.ℕ_discrete bazos.Base.Codes-discrete
raw_value = refl
