-- ===== src/Database/Manager/Calls/Reported.antt =====
-- What `getNewPositions` tells of a client that has moved, and whom its notice goes to.
use tin_locus.Base.{
  ℕ, ◌<◌, ◌≡◌, ◌≢◌, refl, sym, ap, subst, ◌∙◌, inl, inr, true, false, Bool, List, [], ◌∷◌, ◌++◌,
  none, some, arith, ◌==◌, if◌then◌else◌, nat_eq, Result, ok, throws, undefined, Bool-cases,
  Option-cases, ◌>>=◌, ==_iff,
}
use tin_locus.Base.Int.{ℤ, ltb_ℤ}
use tin_locus.Base.Dict.{Dict, lookup}
use tin_locus.Database.ClientData.{ClientData, Watcher, Position}
use tin_locus.Database.Manager.{queues_of, watched, last_position, is_nil, positions_loop, at}
use tin_locus.Database.Manager.Graph.{count, ids}
use tin_locus.Database.Manager.Reports.{AllKnown, Reports, positions_loop-Reports}
use tin_locus.Database.Manager.Notices.{watched_lem}
use mathlib.Core.List.{append_assoc}

-- An element somewhere in a list.
abbrev pub Has {ℓ} : {A : Type ℓ} → A → List A → Type ℓ
Has {A = A} x xs = (pre : List A) × (post : List A) × (xs ≡ pre ++ x ∷ post)

Has-left {ℓ} : {A : Type ℓ} (x : A) (xs ys : List A) → Has x xs → Has x (xs ++ ys)
Has-left x xs ys (pre, post, e) =
    (pre, post ++ ys, ap (λ zs. zs ++ ys) e ∙ append_assoc pre (x ∷ post) ys)

Has-right {ℓ} : {A : Type ℓ} (x : A) (xs ys : List A) → Has x ys → Has x (xs ++ ys)
Has-right x xs ys (pre, post, e) =
    (xs ++ pre, post, ap (λ zs. xs ++ zs) e ∙ sym (append_assoc xs pre (x ∷ post)))

queues_cons :
    (d : Dict ℕ ℕ) (f q : ℕ) (fs : List ℕ)
    → lookup f d ≡ some q
    → queues_of d (f ∷ fs) ≡ q ∷ queues_of d fs
unfolding queues_of
queues_cons d f q fs e = rw (queues_of, e)

queues_skip :
    (d : Dict ℕ ℕ) (f : ℕ) (fs : List ℕ) → lookup f d ≡ none → queues_of d (f ∷ fs) ≡ queues_of d fs
unfolding queues_of
queues_skip d f fs e = rw (queues_of, e)

pub queues_of-Has :
    (d : Dict ℕ ℕ) (a q : ℕ) (fs : List ℕ)
    → 0 < count a fs
    → lookup a d ≡ some q
    → Has q (queues_of d fs)
queues_of-Has d a q [] h e = absurd (omega (arith, h))
queues_of-Has d a q (f ∷ fs) h e = elim (Bool-cases (f == a)) [
  | inl same ↦ (
    [],
    queues_of d fs,
    queues_cons d f q fs (ap (λ (x : ℕ). lookup x d) ((==_iff f a).0 same) ∙ e),
  )
  | inr other ↦
      let (pre, post, k) = queues_of-Has d a q fs (rw other at h) e in
      elim (Option-cases (lookup f d)) [
        | inl n ↦ (pre, post, queues_skip d f fs n ∙ k)
        | inr (r, s) ↦ (r ∷ pre, post, queues_cons d f r fs s ∙ ap (◌∷◌ r) k)
      ]
]

last-snoc : (q p : Position) (ps : List Position) → last_position q (ps ++ p ∷ []) ≡ p
unfolding last_position
last-snoc q p [] = refl
last-snoc q p (r ∷ ps) = last-snoc r p ps

is_nil-snoc : (p : Position) (ps : List Position) → is_nil (ps ++ p ∷ []) ≡ false
unfolding is_nil
is_nil-snoc p [] = refl
is_nil-snoc p (q ∷ ps) = refl

watched-Has :
    (w : Watcher) (name : List ℕ) (ps : List Position) (p : Position)
    → name ≢ []
    → ltb_ℤ w.time p.time ≡ true
    → Has (w.id, p) (watched w name (ps ++ p ∷ [])).0
unfolding last_position is_nil
watched-Has w name [] p named newer = rw (watched_lem w name p [] named, newer) ([], [], refl)
watched-Has w name (q ∷ ps) p named newer =
    let l = last-snoc q p ps in
    let newer' = ap (λ (x : Position). ltb_ℤ w.time x.time) l ∙ newer in
    let rest = ps ++ p ∷ [] in
    subst (Has {A = ℕ × Position} (w.id, p)) (sym (watched_lem w name q rest named))
      (told (last_position q rest) (is_nil rest) l (is_nil-snoc p ps) newer')
  where
    told :
        (x : Position) (single : Bool)
        → x ≡ p
        → single ≡ false
        → ltb_ℤ w.time x.time ≡ true
        → Has {A = ℕ × Position}
            (w.id, p)
            (if ltb_ℤ w.time x.time
              then if single then (w.id, x) ∷ [] else (w.id, x) ∷ (w.id, x) ∷ (w.id, x) ∷ []
              else [])
    told x single l two h =
        rw (h, two) ([], (w.id, x) ∷ (w.id, x) ∷ [], λ i. (w.id, l i) ∷ (w.id, x) ∷ (w.id, x) ∷ [])

-- A result of the loop.
reported {ℓ} :
    {A : Type ℓ} (ws : List Watcher) (r : Result (A × List Watcher))
    → Reports ws r
    → (news : A) × (ws' : List Watcher) × (r ≡ ok (news, ws'))
reported ws (ok (news, ws')) h = (news, ws', refl)
reported ws throws h = absurd h
reported ws undefined h = absurd h

-- Every watcher of the client was last told of an earlier time.
abbrev pub AllOlder : ℕ → ℤ → List Watcher → Type 0
AllOlder b t [] = Unit {0}
AllOlder b t (w ∷ ws) = (w.id ≡ b → ltb_ℤ w.time t ≡ true) × AllOlder b t ws

loop_step :
    Watcher
    → Result ClientData
    → Result (List (ℕ × Position) × List Watcher)
    → Result (List (ℕ × Position) × List Watcher)
loop_step w r s = do
  c ← r
  (news, rest) ← s
  let (mine, w') = watched w c.name c.positions
  ok (mine ++ news, w' ∷ rest)

loop_cons :
    (d : Dict ℕ ClientData) (w : Watcher) (ws ws' : List Watcher) (c : ClientData)
    (news : List (ℕ × Position))
    → lookup w.id d ≡ some c
    → positions_loop d ws ≡ ok (news, ws')
    → positions_loop d (w ∷ ws)
      ≡ ok ((watched w c.name c.positions).0 ++ news, (watched w c.name c.positions).1 ∷ ws')
unfolding positions_loop loop_step
loop_cons d w ws ws' c news e f =
    let found : at w.id d ≡ ok c = rw (at, e) in λ i. loop_step w (found i) (f i)

module _ (d : Dict ℕ ClientData) (b : ℕ) (c : ClientData) (ps : List Position) (p : Position)
    (there : lookup b d ≡ some c) (named : c.name ≢ []) (moved : c.positions ≡ ps ++ p ∷ []) where
  pub loop-Has :
      (ws : List Watcher)
      → AllKnown d (ids ws)
      → AllOlder b p.time ws
      → 0 < count b (ids ws)
      → (news : List (ℕ × Position)) × (ws' : List Watcher) × (positions_loop d ws ≡ ok (news, ws'))
        × Has (b, p) news
  loop-Has [] known older h = absurd (omega (arith, h))
  loop-Has (w ∷ ws) known older h = elim (Option-cases (lookup w.id d)) [
    | inl missing ↦ absurd (known.0 missing)
    | inr (k, e) ↦ elim (Bool-cases (w.id == b)) [
      | inl same ↦
          let is_b = (==_iff w.id b).0 same in
          let (news, ws', f) =
            reported ws (positions_loop d ws) (positions_loop-Reports d ws known.1) in
          let here = ap (λ (x : ℕ). lookup x d) is_b ∙ there in
          let mine =
            subst (λ (x : ℕ). Has {A = ℕ × Position} (x, p) (watched w c.name (ps ++ p ∷ [])).0)
              is_b (watched-Has w c.name ps p named (older.0 is_b)) in
          (
            (watched w c.name c.positions).0 ++ news,
            (watched w c.name c.positions).1 ∷ ws',
            loop_cons d w ws ws' c news here f,
            Has-left (b, p) (watched w c.name c.positions).0 news
                (subst
                  (λ (qs : List Position). Has {A = ℕ × Position} (b, p) (watched w c.name qs).0)
                  (sym moved) mine),
          )
      | inr other ↦
          let (news, ws', f, has) = loop-Has ws known.1 older.1 (rw other at h) in
          (
            (watched w k.name k.positions).0 ++ news,
            (watched w k.name k.positions).1 ∷ ws',
            loop_cons d w ws ws' k news e f,
            Has-right (b, p) (watched w k.name k.positions).0 news has,
          )
    ]
  ]
