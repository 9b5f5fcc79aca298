-- ===== src/User/Identity.antt =====
-- server/internal/models/user.go: the ids that the server generates for users, from the address of their
-- machine and their alias.
use fragua_age.Prelude.{
  ℕ, zero, suc, ◌+◌, ◌*◌, ◌^◌, ◌<◌, ◌≡◌, ◌≢◌, ◌↔◌, refl, sym, ◌∙◌, ap, some, List, [], ◌∷◌, ◌++◌,
  length, take, drop, All, arith, length-take, length-append, length-drop,
}
use fragua_age.User.{
  entropy, copied, big_endian, uint64, seeds, generate_platform_user_id_steam,
  generate_platform_user_id_xbox,
}

-- An address of `n` bytes, and the bytes of a text that holds no zero byte.
abbrev pub IsBytes : List ℕ → Type 0
IsBytes bs = All (λ b. b < 256) bs

abbrev pub IsAddress : ℕ → List ℕ → Type 0
IsAddress n bs = (length bs ≡ n) × IsBytes bs

abbrev pub IsText : List ℕ → Type 0
IsText bs = All (λ b. (0 < b) × (b < 256)) bs

module _ {A : Type 0} where
  append-cancel :
      (xs xs' ys ys' : List A)
      → length xs ≡ length xs'
      → xs ++ ys ≡ xs' ++ ys'
      → (xs ≡ xs') × (ys ≡ ys')
  append-cancel [] [] ys ys' h e = (refl, e)
  append-cancel [] (x ∷ xs') ys ys' h e = absurd (omega (arith, h))
  append-cancel (x ∷ xs) [] ys ys' h e = absurd (omega (arith, h))
  append-cancel (x ∷ xs) (x' ∷ xs') ys ys' h e =
      let r = append-cancel xs xs' ys ys' (omega (arith, h)) (ground (arith, e)) in
      (ground (arith, e, r.0), r.1)

  take-drop : (n : ℕ) (xs : List A) → take n xs ++ drop n xs ≡ xs
  take-drop zero xs = refl
  take-drop (suc n) [] = refl
  take-drop (suc n) (x ∷ xs) = ap (◌∷◌ x) (take-drop n xs)

IsBytes-append : (xs ys : List ℕ) → IsBytes xs → IsBytes ys → IsBytes (xs ++ ys)
IsBytes-append [] ys h h' = h'
IsBytes-append (x ∷ xs) ys h h' = (h.0, IsBytes-append xs ys h.1 h')

IsBytes-take : (n : ℕ) (xs : List ℕ) → IsBytes xs → IsBytes (take n xs)
IsBytes-take zero xs h = tt
IsBytes-take (suc n) [] h = tt
IsBytes-take (suc n) (x ∷ xs) h = (h.0, IsBytes-take n xs h.1)

IsBytes-drop : (n : ℕ) (xs : List ℕ) → IsBytes xs → IsBytes (drop n xs)
IsBytes-drop zero xs h = h
IsBytes-drop (suc n) [] h = tt
IsBytes-drop (suc n) (x ∷ xs) h = IsBytes-drop n xs h.1

big_endian-injective :
    (n m : ℕ) (bs cs : List ℕ)
    → length bs ≡ length cs
    → IsBytes bs
    → IsBytes cs
    → big_endian n bs ≡ big_endian m cs
    → (n ≡ m) × (bs ≡ cs)
unfolding big_endian
big_endian-injective n m [] [] l h h' e = (e, refl)
big_endian-injective n m [] (c ∷ cs) l h h' e = absurd (omega (arith, l))
big_endian-injective n m (b ∷ bs) [] l h h' e = absurd (omega (arith, l))
big_endian-injective n m (b ∷ bs) (c ∷ cs) l h h' e =
    let r = big_endian-injective (256 * n + b) (256 * m + c) bs cs (omega (arith, l)) h.1 h'.1 e in
    let same : b ≡ c = omega (arith, r.0, h.0, h'.0) in
    (omega (arith, r.0, same), ground (arith, r.1, same))

length-copied : (n : ℕ) (bs : List ℕ) → length (copied n bs) ≡ n
unfolding copied
length-copied zero bs = refl
length-copied (suc n) [] = ap suc (length-copied n [])
length-copied (suc n) (b ∷ bs) = ap suc (length-copied n bs)

copied-address : (n : ℕ) (bs : List ℕ) → length bs ≡ n → copied n bs ≡ bs
unfolding copied
copied-address zero [] l = refl
copied-address zero (b ∷ bs) l = absurd (omega (arith, l))
copied-address (suc n) [] l = absurd (omega (arith, l))
copied-address (suc n) (b ∷ bs) l = ap (◌∷◌ b) (copied-address n bs (omega (arith, l)))

copied-take : (n : ℕ) (bs : List ℕ) → copied n (take n bs) ≡ copied n bs
unfolding copied
copied-take zero bs = refl
copied-take (suc n) [] = refl
copied-take (suc n) (b ∷ bs) = ap (◌∷◌ b) (copied-take n bs)

copied-IsBytes : (n : ℕ) (bs : List ℕ) → IsBytes bs → IsBytes (copied n bs)
unfolding copied
copied-IsBytes zero bs h = tt
copied-IsBytes (suc n) [] h = (omega arith, copied-IsBytes n [] tt)
copied-IsBytes (suc n) (b ∷ bs) h = (h.0, copied-IsBytes n bs h.1)

-- A text without a zero byte can be told from its zero-padded copy.
copied-text :
    (n : ℕ) (bs cs : List ℕ)
    → IsText bs
    → IsText cs
    → copied n bs ≡ copied n cs
    → take n bs ≡ take n cs
unfolding copied
copied-text zero bs cs h h' e = refl
copied-text (suc n) [] [] h h' e = refl
copied-text (suc n) [] (c ∷ cs) h h' e = absurd (ground (arith, e, h'.0.0))
copied-text (suc n) (b ∷ bs) [] h h' e = absurd (ground (arith, e, h.0.0))
copied-text (suc n) (b ∷ bs) (c ∷ cs) h h' e =
    ground (arith, e, copied-text n bs cs h.1 h'.1 (ground (arith, e)))

IsText-IsBytes : (bs : List ℕ) → IsText bs → IsBytes bs
IsText-IsBytes [] h = tt
IsText-IsBytes (b ∷ bs) h = (h.0.1, IsText-IsBytes bs h.1)

entropy-IsBytes :
    (mac ip alias : List ℕ)
    → IsAddress 6 mac
    → IsAddress 4 ip
    → IsText alias
    → (entropy (some mac) (some ip) alias ≡ mac ++ (ip ++ copied 6 alias))
      × (length (entropy (some mac) (some ip) alias) ≡ 16)
      × IsBytes (entropy (some mac) (some ip) alias)
unfolding entropy
entropy-IsBytes mac ip alias m i a =
    let e = copied-address 6 mac m.0 in
    let f = copied-address 4 ip i.0 in
    let tail = copied 6 alias in
    (
      ground (arith, e, f),
      rw (e, f)
          (omega (
            arith,
            length-append mac (ip ++ tail),
            length-append ip tail,
            length-copied 6 alias,
            m.0,
            i.0,
          )),
      rw (e, f)
          (IsBytes-append mac (ip ++ tail) m.1
            (IsBytes-append ip tail i.1 (copied-IsBytes 6 alias (IsText-IsBytes alias a)))),
    )

uint64-injective :
    (bs cs : List ℕ)
    → length bs ≡ length cs
    → IsBytes bs
    → IsBytes cs
    → uint64 bs ≡ uint64 cs
    → bs ≡ cs
unfolding uint64
uint64-injective bs cs l h h' e = (big_endian-injective 0 0 bs cs l h h' e).1

-- The two seeds determine the 16 bytes that they are read from.
seeds-injective :
    (bs cs : List ℕ)
    → length bs ≡ 16
    → length cs ≡ 16
    → IsBytes bs
    → IsBytes cs
    → seeds bs ≡ seeds cs
    → bs ≡ cs
unfolding seeds
seeds-injective bs cs l l' h h' e =
    let first =
      uint64-injective (take 8 bs) (take 8 cs)
        (omega (arith, length-take 8 bs, length-take 8 cs, l, l')) (IsBytes-take 8 bs h)
        (IsBytes-take 8 cs h') (ap (λ s. s.0) e) in
    let second =
      uint64-injective (drop 8 bs) (drop 8 cs)
        (omega (arith, length-drop 8 bs, length-drop 8 cs, l, l')) (IsBytes-drop 8 bs h)
        (IsBytes-drop 8 cs h') (ap (λ s. s.1) e) in
    sym (take-drop 8 bs) ∙ ground (arith, first, second) ∙ take-drop 8 cs

-- For MAC addresses of 6 bytes, IPv4 addresses and aliases without a zero byte: the seeds of the generator of
-- the id are the same exactly if both addresses are the same and so are the first 6 bytes of the aliases.
pub seeds-entropy :
    (mac mac' ip ip' alias alias' : List ℕ)
    → IsAddress 6 mac
    → IsAddress 6 mac'
    → IsAddress 4 ip
    → IsAddress 4 ip'
    → IsText alias
    → IsText alias'
    → seeds (entropy (some mac) (some ip) alias) ≡ seeds (entropy (some mac') (some ip') alias')
      ↔ (mac ≡ mac') × (ip ≡ ip') × (take 6 alias ≡ take 6 alias')
seeds-entropy mac mac' ip ip' alias alias' m m' i i' a a' = (
  λ e.
      let (x, l, h) = entropy-IsBytes mac ip alias m i a in
      let (x', l', h') = entropy-IsBytes mac' ip' alias' m' i' a' in
      let same = seeds-injective _ _ l l' h h' e in
      let first =
        append-cancel mac mac' (ip ++ copied 6 alias) (ip' ++ copied 6 alias') (m.0 ∙ sym m'.0)
          (sym x ∙ same ∙ x') in
      let second =
        append-cancel ip ip' (copied 6 alias) (copied 6 alias') (i.0 ∙ sym i'.0) first.1 in
      (first.0, second.0, copied-text 6 alias alias' a a' second.1),
  λ e.
      let (x, l, h) = entropy-IsBytes mac ip alias m i a in
      let (x', l', h') = entropy-IsBytes mac' ip' alias' m' i' a' in
      let padded : copied 6 alias ≡ copied 6 alias' =
        sym (copied-take 6 alias) ∙ ap (copied 6) e.2 ∙ copied-take 6 alias' in
      ap seeds (x ∙ ground (arith, e.0, e.1, padded) ∙ sym x'),
)

-- For draws in the range that Int64N promises: two Steam ids are the same exactly for the same draw, and so
-- are two Xbox ids; both fit in an int64, and no Steam id is an Xbox id.
pub generate_platform_user_id-differs :
    (a b c d : ℕ)
    → a < 2 ^ 31
    → b < 2 ^ 31
    → c < 9000000000000000
    → d < 9000000000000000
    → (generate_platform_user_id_steam a ≡ generate_platform_user_id_steam b ↔ a ≡ b)
      × (generate_platform_user_id_xbox c ≡ generate_platform_user_id_xbox d ↔ c ≡ d)
      × (generate_platform_user_id_steam a < 2 ^ 63)
      × (generate_platform_user_id_xbox c < 2 ^ 63)
      × (generate_platform_user_id_steam a ≢ generate_platform_user_id_xbox c)
unfolding generate_platform_user_id_steam generate_platform_user_id_xbox
generate_platform_user_id-differs a b c d ha hb hc hd = (
  (λ e. omega (arith, ha, hb, e), λ e. ap generate_platform_user_id_steam e),
  (λ e. omega (arith, hc, hd, e), λ e. ap generate_platform_user_id_xbox e),
  omega (arith, ha),
  omega (arith, hc),
  λ e. omega (arith, ha, hc, e),
)
