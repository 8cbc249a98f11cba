-- ===== src/Growth/Cookies.antt =====
-- A cookie header, as browsers print it, is read back.
use bazos.Base.{
  split, cut, cons_head, cons_before, Lacks, split-append, split-alone, cut-append, Lacks-append, ℕ,
  ◌≡◌, ◌≢◌, refl, sym, ap, ◌∙◌, Option, none, some, List, [], ◌∷◌, ◌++◌, Bool, true, false, inl,
  inr, ◌==◌, nat_eq, codes_eq, codes, trim, All, Bool-cases, if◌then◌else◌, arith, trim_start,
  is_space, ==_refl,
}
use bazos.Growth.{read_part, read_parts, read_cookie, cookie_value, pick_gsid, cookie, nonempty}

pub record Cookie : Type 0 where
  pub name : List ℕ
  pub value : List ℕ

abbrev pub cookie_pair : Cookie → List ℕ
cookie_pair c = c.name ++ b'=' ∷ c.value

-- `name=value` pairs, joined with a semicolon and a space.
abbrev pub cookie_header : List Cookie → List ℕ
cookie_header [] = []
cookie_header (c ∷ []) = cookie_pair c
cookie_header (c ∷ d ∷ cs) = cookie_pair c ++ b';' ∷ b' ' ∷ cookie_header (d ∷ cs)

-- A pair that a header can carry.
abbrev pub IsCookie : Cookie → Type 0
IsCookie c = Lacks b'=' c.name × Lacks b';' c.name × Lacks b';' c.value

pair-Lacks : (c : Cookie) → IsCookie c → Lacks b';' (cookie_pair c)
unfolding bazos.Base.ℕ_discrete
pair-Lacks c (_, in_name, in_value) =
    Lacks-append b';' c.name (b'=' ∷ c.value) in_name (refl, in_value)

module _ (decode : List ℕ → Option (List ℕ)) (name : List ℕ) where
  abbrev IsNamed : Cookie → Bool → Type 0
  IsNamed c b = (trim c.name == name) ≡ b

  -- The value of the first cookie of that name.
  abbrev first_value : List Cookie → Option (List ℕ)
  first_value [] = none
  first_value (c ∷ cs) =
      let rest = first_value cs in
      if trim c.name == name then cookie_value decode (trim c.value) else rest

  read_part-pair :
      (c : Cookie) (rest : Option (List ℕ))
      → IsCookie c
      → read_part decode name (cut b'=' (cookie_pair c)) rest
        ≡ (if trim c.name == name then cookie_value decode (trim c.value) else rest)
  read_part-pair c rest (in_name, _, _) = rw (cut-append b'=' c.name c.value in_name) refl

  read_part-space :
      (o : Option (List ℕ × List ℕ)) (rest : Option (List ℕ))
      → read_part decode name (cons_before b' ' o) rest ≡ read_part decode name o rest
  unfolding trim trim_start is_space bazos.Base.ℕ_discrete
  read_part-space none rest = refl
  read_part-space (some (key, value)) rest = refl

  read_parts-space :
      (ps : List (List ℕ)) → read_parts decode name (cons_head b' ' ps) ≡ read_parts decode name ps
  unfolding read_parts cut bazos.Base.ℕ_discrete
  read_parts-space [] = refl
  read_parts-space (p ∷ ps) = read_part-space (cut b'=' p) (read_parts decode name ps)

  read_parts-header :
      (cs : List Cookie)
      → All IsCookie cs
      → read_parts decode name (split b';' (cookie_header cs)) ≡ first_value cs
  unfolding split read_parts cut bazos.Base.ℕ_discrete
  read_parts-header [] hs = refl
  read_parts-header (c ∷ []) (h, _) =
      rw (split-alone b';' (cookie_pair c) (pair-Lacks c h)) (read_part-pair c none h)
  read_parts-header (c ∷ d ∷ cs) (h, hs) =
      let rest =
        read_parts-space (split b';' (cookie_header (d ∷ cs))) ∙ read_parts-header (d ∷ cs) hs in
      rw (split-append b';' (cookie_pair c) (b' ' ∷ cookie_header (d ∷ cs)) (pair-Lacks c h), rest)
        (read_part-pair c (first_value (d ∷ cs)) h)

  read_cookie-parts :
      (cs : List ℕ) → read_cookie decode (some cs) name ≡ read_parts decode name (split b';' cs)
  unfolding read_cookie read_parts split cut
  read_cookie-parts [] = refl
  read_cookie-parts (c ∷ cs) = refl

  first_value-after :
      (before after : List Cookie) (c : Cookie)
      → All (λ d. IsNamed d false) before
      → IsNamed c true
      → first_value (before ++ c ∷ after) ≡ cookie_value decode (trim c.value)
  first_value-after [] after c hs h = rw h refl
  first_value-after (d ∷ ds) after c (out, hs) h = rw out (first_value-after ds after c hs h)

  -- The first cookie of the name is read, from a header that was printed.
  read_cookie-first :
      (before after : List Cookie) (c : Cookie)
      → All IsCookie (before ++ c ∷ after)
      → All (λ d. IsNamed d false) before
      → IsNamed c true
      → read_cookie decode (some (cookie_header (before ++ c ∷ after))) name
        ≡ cookie_value decode (trim c.value)
  read_cookie-first before after c hs others h =
      read_cookie-parts _ ∙ (read_parts-header _ hs ∙ first_value-after before after c others h)

abbrev pub gsid_cookie : List ℕ → Cookie
gsid_cookie value = record { name = codes "gsid"; value = value }

trim-gsid : trim (codes "gsid") ≡ codes "gsid"
unfolding trim trim_start is_space bazos.Base.ℕ_discrete
trim-gsid = refl

cookie_value-decoded :
    (decode : List ℕ → Option (List ℕ)) (raw v : List ℕ)
    → raw ≢ []
    → decode raw ≡ some v
    → cookie_value decode raw ≡ nonempty v
unfolding cookie_value
cookie_value-decoded decode [] v some_raw e = absurd (some_raw refl)
cookie_value-decoded decode (c ∷ cs) v some_raw e = rw e refl

-- A session that a browser stores in the cookie `gsid` is read back from its cookie header,
-- whatever the query says and whatever other cookies there are, if no earlier one has that name.
-- Conditions: the session is not empty, its encoding has no semicolon and no white space at its
-- ends, and is decoded to the session; the names and values of the cookies can stand in a header.
pub pick_gsid-cookie_header :
    (encode : List ℕ → List ℕ) (decode : List ℕ → Option (List ℕ)) (before after : List Cookie)
    (v : List ℕ) (query_gsid : Option (List ℕ))
    → v ≢ []
    → encode v ≢ []
    → decode (encode v) ≡ some v
    → trim (encode v) ≡ encode v
    → All IsCookie (before ++ gsid_cookie (encode v) ∷ after)
    → All (λ c. (trim c.name == codes "gsid") ≡ false) before
    → pick_gsid decode (some (cookie_header (before ++ gsid_cookie (encode v) ∷ after))) query_gsid
      ≡ some (record { gsid = v; gsid_source = cookie })
unfolding pick_gsid
pick_gsid-cookie_header encode decode before after [] query_gsid some_v _ _ _ _ _ =
    absurd (some_v refl)
pick_gsid-cookie_header encode decode before after (c ∷ cs) query_gsid some_v some_raw decoded bare
      hs others =
    let found =
      read_cookie-first decode (codes "gsid") before after (gsid_cookie (encode (c ∷ cs))) hs others
        (ap (λ n. n == codes "gsid") trim-gsid ∙ ==_refl (codes "gsid")) in
    let value =
      ap (cookie_value decode) bare
      ∙ cookie_value-decoded decode (encode (c ∷ cs)) (c ∷ cs) some_raw decoded in
    rw (found ∙ value) refl
