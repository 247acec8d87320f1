-- ===== src/Auth/HostAuth/Lookup.antt =====
-- `lookup` finds the entry of the longest prefix that matches, whatever the order of iteration.
use akua.Base.{
  ◌≤◌, ◌≡◌, refl, sym, ap, subst, ◌∙◌, ◌≢◌, ◌↔◌, inl, inr, true, false, Option, none, some, List,
  [], ◌∷◌, ◌++◌, length, arith, Bool-cases, Option-cases, ◌==◌, nat_eq, nat_beq_iff, list_eq,
  list_beq_iff, drop-append, All-In, In, here, there,
}
use mathlib.Core.Bool.{false≢true}
use mathlib.Core.Option.{none-ne-some, some-injective}
use akua.Base.Orders.{nat_ord, reverse_ord}
use akua.Base.Maps.{keys}
use akua.Base.Sorting.{IsSorted, MayFollow, sort_by_key-IsSorted, sort_by_key-In, In-sort_by_key}
use akua.Base.Texts.{Text}
use akua.Base.Texts.Laws.{starts_with→append, starts_with-append}
use akua.Auth.HostAuth.{
  BasicAuth, HostAuthMap, get, match_key, prefix_matches, boundary, first_match, longest_first,
  lookup,
}

-- What may stand behind a matching prefix: nothing, a further path segment, or a port.
pub data EndsSegment : Text → Type 0 where
  at_end : EndsSegment []
  at_slash : (rest : Text) → EndsSegment (b'/' ∷ rest)
  at_port : (rest : Text) → EndsSegment (b':' ∷ rest)

boundary→EndsSegment : (s : Text) → boundary s ≡ true → EndsSegment s
boundary→EndsSegment [] h = at_end
boundary→EndsSegment (c ∷ s) h = elim (Bool-cases (c == b'/')) [
  | inl e ↦ subst (λ d. EndsSegment (d ∷ s)) (sym ((nat_beq_iff c b'/').0 e)) (at_slash s)
  | inr e ↦ subst (λ d. EndsSegment (d ∷ s)) (sym (ground arith)) (at_port s)
]

EndsSegment→boundary : {s : Text} → EndsSegment s → boundary s ≡ true
EndsSegment→boundary at_end = refl
EndsSegment→boundary (at_slash rest) = refl
EndsSegment→boundary (at_port rest) = refl

-- A prefix matches a key exactly where the key is the prefix and a rest that begins at a boundary.
pub prefix_matches_iff :
    (key prefix : Text)
    → (prefix_matches key prefix ≡ true)
      ↔ ((rest : Text) × (key ≡ prefix ++ rest) × EndsSegment rest)
unfolding prefix_matches
prefix_matches_iff key prefix = (
  λ h.
      let (rest, e) = starts_with→append key prefix (ground arith) in
      (rest, e, boundary→EndsSegment rest (rw (← drop-append prefix rest, ← e) (ground arith))),
  λ (rest, e, b). rw (e, starts_with-append, drop-append) (EndsSegment→boundary b),
)

module _ (map : HostAuthMap) where
  -- The entry that `lookup` is to find: that of a matching prefix which no matching one exceeds.
  pub record IsBest (key : Text) (c : BasicAuth) : Type 0 where
    pub prefix : Text
    pub entry : get prefix map ≡ some c
    pub fits : prefix_matches key prefix ≡ true
    pub longest :
        (q : Text) → get q map ≢ none → prefix_matches key q ≡ true → length q ≤ length prefix

  -- The same for the prefixes of a list, each a key of the map.
  record IsFirst (key : Text) (c : BasicAuth) (ps : List Text) : Type 0 where
    prefix : Text
    entry : get prefix map ≡ some c
    fits : prefix_matches key prefix ≡ true
    longest : (q : Text) → In q ps → prefix_matches key q ≡ true → length q ≤ length prefix

  first_match-IsFirst :
      (key : Text) (ps : List Text) {c : BasicAuth}
      → IsSorted ⦃o = reverse_ord nat_ord⦄ length ps
      → first_match key ps map ≡ some c
      → IsFirst key c ps
  unfolding first_match
  first_match-IsFirst key [] s h = cc
  first_match-IsFirst key (p ∷ ps) {c} s h = elim (Bool-cases (prefix_matches key p)) [
    | inl e ↦ record {
      prefix = p;
      entry = ground arith;
      fits = e;
      longest = λ q m f. longest_here q m;
    }
    | inr e ↦
        let rest = first_match-IsFirst key ps s.1 (ground arith) in
        record {
          prefix = rest.prefix;
          entry = rest.entry;
          fits = rest.fits;
          longest = λ q m f. longest_later e rest q m f;
        }
  ]
    where
      longest_here : (q : Text) → In q (p ∷ ps) → length q ≤ length p
      longest_here q (here e) = rw e (omega arith)
      longest_here q (there m) =
          ground (arith, All-In (MayFollow ⦃o = reverse_ord nat_ord⦄ length p) ps s.0 m)

      longest_later :
          prefix_matches key p ≡ false
          → (rest : IsFirst key c ps) (q : Text) → In q (p ∷ ps)
          → prefix_matches key q ≡ true
          → length q ≤ length rest.prefix
      longest_later e rest q (here i) f = ground arith
      longest_later e rest q (there m) f = rest.longest q m f

  first_match-none :
      (key : Text) (ps : List Text)
      → ((q : Text) → In q ps → get q map ≢ none)
      → first_match key ps map ≡ none
      → (q : Text) → In q ps
      → prefix_matches key q ≡ false
  unfolding first_match
  first_match-none key [] k h q m = elim m [ ]
  first_match-none key (p ∷ ps) k h q (here e) = rw e (ground (arith, k p (here refl)))
  first_match-none key (p ∷ ps) k h q (there m) =
      first_match-none key ps (λ r n. k r (there n)) (ground (arith, k p (here refl))) q m

keys-In : (map : HostAuthMap) (q : Text) → get q map ≢ none → In q (keys map)
unfolding get
keys-In [] q h = absurd (h refl)
keys-In ((j, v) ∷ m) q h = elim (Bool-cases (j == q)) [
  | inl e ↦ here (sym ((list_beq_iff j q).0 e))
  | inr e ↦ there (keys-In m q (ground arith))
]

get-ne-none : (map : HostAuthMap) (q : Text) → In q (keys map) → get q map ≢ none
unfolding get
get-ne-none ((j, v) ∷ m) q (here e) = ground (arith, list_beq_iff j q)
get-ne-none ((j, v) ∷ m) q (there n) = ground (arith, get-ne-none m q n)
get-ne-none [] q n = elim n [ ]

-- A found credential belongs to a key of the map that matches the URL, and no matching key is longer.
pub lookup-IsBest :
    (map : HostAuthMap) (url : Text) {c : BasicAuth}
    → lookup map url ≡ some c
    → (key : Text) × (match_key url ≡ some key) × IsBest map key c
unfolding lookup longest_first
lookup-IsBest [] url h = cc
lookup-IsBest (e ∷ m) url {c} h = elim (Option-cases (match_key url)) [
  | inl none_key ↦ ground arith
  | inr (key, some_key) ↦ (key, some_key, best key some_key)
]
  where
    best : (key : Text) → match_key url ≡ some key → IsBest (e ∷ m) key c
    best key some_key =
        let first =
          first_match-IsFirst (e ∷ m) key (longest_first (keys (e ∷ m)))
            (sort_by_key-IsSorted ⦃o = reverse_ord nat_ord⦄ length (keys (e ∷ m))) (ground arith) in
        record {
          prefix = first.prefix;
          entry = first.entry;
          fits = first.fits;
          longest = λ q k f.
              first.longest q
                (sort_by_key-In ⦃o = reverse_ord nat_ord⦄ length (keys (e ∷ m))
                  (keys-In (e ∷ m) q k))
                f;
        }

-- Nothing is found only where no key of the map matches.
lookup-none :
    (map : HostAuthMap) (url : Text) (key : Text)
    → lookup map url ≡ none
    → match_key url ≡ some key
    → (q : Text) → get q map ≢ none
    → prefix_matches key q ≡ false
unfolding lookup longest_first
lookup-none [] url key h k q g = absurd (g refl)
lookup-none (e ∷ m) url key h k q g =
    first_match-none (e ∷ m) key (longest_first (keys (e ∷ m)))
      (λ r n.
        get-ne-none (e ∷ m) r (In-sort_by_key ⦃o = reverse_ord nat_ord⦄ length (keys (e ∷ m)) n))
      (ground arith) q
      (sort_by_key-In ⦃o = reverse_ord nat_ord⦄ length (keys (e ∷ m)) (keys-In (e ∷ m) q g))

append-injective_left : (p q r s : Text) → p ++ r ≡ q ++ s → length p ≡ length q → p ≡ q
append-injective_left [] [] r s e l = refl
append-injective_left [] (y ∷ q) r s e l = absurd (omega arith)
append-injective_left (x ∷ p) [] r s e l = absurd (omega arith)
append-injective_left (x ∷ p) (y ∷ q) r s e l = ground (arith, append-injective_left p q r s)

-- Two matching prefixes of one length are the same.
prefix_matches_unique :
    (key p q : Text)
    → prefix_matches key p ≡ true
    → prefix_matches key q ≡ true
    → length p ≡ length q
    → p ≡ q
prefix_matches_unique key p q h k l =
    let (r, e, _) = (prefix_matches_iff key p).0 h in
    let (s, f, _) = (prefix_matches_iff key q).0 k in append-injective_left p q r s (sym e ∙ f) l

module _ (m n : HostAuthMap) (same : (q : Text) → get q m ≡ get q n) where
  IsBest-of_same : (key : Text) (c : BasicAuth) → IsBest m key c → IsBest n key c
  IsBest-of_same key c b = record {
    prefix = b.prefix;
    entry = sym (same b.prefix) ∙ b.entry;
    fits = b.fits;
    longest = λ q g f. b.longest q (rw same g) f;
  }

  lookup_not_lost : (url : Text) (c : BasicAuth) → lookup m url ≡ some c → lookup n url ≢ none
  lookup_not_lost url c h k =
      let (key, e, b) = lookup-IsBest m url h in
      let lost =
        lookup-none n url key k e b.prefix
          (λ g. none-ne-some c (sym g ∙ sym (same b.prefix) ∙ b.entry)) in
      false≢true (sym lost ∙ b.fits)

IsBest-unique :
    (m : HostAuthMap) (key : Text) (c d : BasicAuth) → IsBest m key c → IsBest m key d → c ≡ d
IsBest-unique m key c d b b' =
    let e : b.prefix ≡ b'.prefix = prefix_matches_unique key b.prefix b'.prefix b.fits b'.fits (
      omega (
        arith,
        b.longest b'.prefix (λ g. none-ne-some d (sym g ∙ b'.entry)) b'.fits,
        b'.longest b.prefix (λ g. none-ne-some c (sym g ∙ b.entry)) b.fits,
      )) in
    some-injective c d (sym b.entry ∙ ap (λ p. get p m) e ∙ b'.entry)

-- The result depends on the entries alone, not on the order in which a map gives its keys.
pub lookup_order_free :
    (m n : HostAuthMap)
    → ((q : Text) → get q m ≡ get q n)
    → (url : Text) → lookup m url ≡ lookup n url
lookup_order_free m n same url = by_results (lookup m url) (lookup n url) refl refl
  where
    by_results :
        (x y : Option BasicAuth) → lookup m url ≡ x → lookup n url ≡ y → lookup m url ≡ lookup n url
    by_results none none h k = h ∙ sym k
    by_results (some c) none h k = absurd (lookup_not_lost m n same url c h k)
    by_results none (some d) h k = absurd (lookup_not_lost n m (λ q. sym (same q)) url d k h)
    by_results (some c) (some d) h k =
        let (key, e, b) = lookup-IsBest m url h in
        let (key', e', b') = lookup-IsBest n url k in
        h
        ∙ ap some (
            IsBest-unique n key c d (IsBest-of_same m n same key c b)
              (subst (λ t. IsBest n t d) (some-injective key' key (sym e' ∙ e)) b'))
        ∙ sym k
