-- ===== src/Waiting/Matching.antt =====
-- Laws of the loop of `handle_connect` that looks for a partner.
use nalang_project.Prelude.{
  ℕ, ◌≡◌, refl, ap, subst, ◌≢◌, ◌⊎◌, ◌↔◌, inl, inr, Bool, true, false, Option, none, some, [], ◌∷◌,
  ◌++◌, All, arith, ◌==◌, nat_eq, ==_iff, ==_ne, Bool-cases,
}
use nalang_project.Dict.{Dict}
use nalang_project.Redis
use nalang_project.Redis.{Redis}
use nalang_project.Raise.{Result, ok, err}
use nalang_project.Waiting.Filter.{UserData, Filters, is_match, both}
use nalang_project.Waiting.State.{Socket, Value, text, profile, World, user_key}
use nalang_project.Waiting.Connect.{suits, find_match, or_next, or_skip}

module _ (w : World) (redis : Redis Value) (mine : UserData) (filters : Filters) where
  -- The profile that can still be read for a waiting user.
  abbrev pub stored : ℕ → Option Value
  stored id = Redis.get w.now (user_key id) redis

  -- Another user with a stored profile, and each passes the filters of the other.
  pub record Suits (id : ℕ) : Type 0 where
    pub other : id ≢ mine.id
    pub other_data : UserData
    pub other_filters : Filters
    pub known : stored id ≡ some (profile other_data other_filters)
    pub mine_admits : is_match w.today other_data filters ≡ ok true
    pub other_admits : is_match w.today mine other_filters ≡ ok true

  -- The user itself, a user without a stored profile, or one whom a filter turns down.
  pub data Passed (id : ℕ) : Type 0 where
    self : id ≡ mine.id → Passed id
    unknown : stored id ≡ none → Passed id
    refused :
        (other_data : UserData) (other_filters : Filters)
        → stored id ≡ some (profile other_data other_filters)
        → (is_match w.today other_data filters ≡ ok false)
          ⊎ ((is_match w.today other_data filters ≡ ok true)
              × (is_match w.today mine other_filters ≡ ok false))
        → Passed id

  both-true : (a b : Result Bool) → both a b ≡ ok true → (a ≡ ok true) × (b ≡ ok true)
  both-true a b h = ground arith

  both-false :
      (a b : Result Bool) → both a b ≡ ok false → (a ≡ ok false) ⊎ ((a ≡ ok true) × (b ≡ ok false))
  both-false a b h = ground arith

  -- What the loop has found out about one waiting user when it goes on without an error.
  abbrev Seen : ℕ → Result (Option ℕ) → Option ℕ → Type 0
  Seen id rest r = (Suits id × (r ≡ some id)) ⊎ (Passed id × (rest ≡ ok r))

  see_profile :
      (id : ℕ) (rest : Result (Option ℕ)) (r : Option ℕ) (data_ : UserData) (their : Filters)
      → id ≢ mine.id
      → stored id ≡ some (profile data_ their)
      → (b : Result Bool) → both (is_match w.today data_ filters) (is_match w.today mine their) ≡ b
      → or_next b id rest ≡ ok r
      → Seen id rest r
  see_profile id rest r d f ne known (ok true) e h =
      let (p, q) = both-true _ _ e in
      inl (
        record {
          other = ne;
          other_data = d;
          other_filters = f;
          known = known;
          mine_admits = p;
          other_admits = q;
        },
        cc,
      )
  see_profile id rest r d f ne known (ok false) e h = inr (refused d f known (both-false _ _ e), h)
  see_profile id rest r d f ne known (err x) e h = cc

  see :
      (id : ℕ) (rest : Result (Option ℕ)) (r : Option ℕ)
      → id ≢ mine.id
      → (v : Option Value) → stored id ≡ v
      → or_skip w mine filters id v rest ≡ ok r
      → Seen id rest r
  unfolding suits
  see id rest r ne none e h = inr (unknown e, h)
  see id rest r ne (some (text s)) e h = cc
  see id rest r ne (some (profile d f)) e h = see_profile id rest r d f ne e _ refl h

  see_entry :
      (id : ℕ) (sock : Socket) (others : Dict ℕ Socket) (r : Option ℕ)
      → find_match w redis mine filters ((id, sock) ∷ others) ≡ ok r
      → Seen id (find_match w redis mine filters others) r
  unfolding find_match
  see_entry id sock others r h = elim (Bool-cases (id == mine.id)) [
    | inl e ↦ inr (self ((==_iff id mine.id).0 e), rw e at h)
    | inr e ↦
        see id (find_match w redis mine filters others) r (λ p. ground arith) (stored id) refl
          (rw e at h)
  ]

  -- The queue up to the user that was found.
  pub record Found (queue : Dict ℕ Socket) (id : ℕ) : Type 0 where
    pub before : Dict ℕ Socket
    pub sock : Socket
    pub after : Dict ℕ Socket
    pub split : queue ≡ before ++ (id, sock) ∷ after
    pub passed : All (λ e. Passed e.0) before
    pub suits_both : Suits id

  Found-cons :
      (id : ℕ) (sock : Socket) (others : Dict ℕ Socket) (k : ℕ)
      → Passed id
      → Found others k
      → Found ((id, sock) ∷ others) k
  Found-cons id sock others k p f = record {
    before = (id, sock) ∷ f.before;
    sock = f.sock;
    after = f.after;
    split = ap (λ q. (id, sock) ∷ q) f.split;
    passed = (p, f.passed);
    suits_both = f.suits_both;
  }

  Found-here :
      (k : ℕ) (sock : Socket) (others : Dict ℕ Socket) (id : ℕ)
      → Suits k
      → some id ≡ some k
      → Found ((k, sock) ∷ others) id
  Found-here k sock others id s e =
      let same : k ≡ id = cc in
      subst (Found ((k, sock) ∷ others)) same (record {
        before = [];
        sock = sock;
        after = others;
        split = refl;
        passed = tt;
        suits_both = s;
      })

  pub find_match-Found :
      (queue : Dict ℕ Socket) (id : ℕ)
      → find_match w redis mine filters queue ≡ ok (some id)
      → Found queue id
  find_match-Found [] id h = unfold find_match in cc
  find_match-Found ((k, sock) ∷ others) id h = elim (see_entry k sock others (some id) h) [
    | inl (s, e) ↦ Found-here k sock others id s e
    | inr (p, e) ↦ Found-cons k sock others id p (find_match-Found others id e)
  ]

  -- Where the loop finds nobody, every waiting user was passed.
  pub find_match-none :
      (queue : Dict ℕ Socket)
      → find_match w redis mine filters queue ≡ ok none
      → All (λ e. Passed e.0) queue
  find_match-none [] h = tt
  find_match-none ((k, sock) ∷ others) h = elim (see_entry k sock others none h) [
    | inl (s, e) ↦ cc
    | inr (p, e) ↦ (p, find_match-none others e)
  ]

  Suits-entry :
      (id : ℕ) (sock : Socket) (others : Dict ℕ Socket)
      → Suits id
      → find_match w redis mine filters ((id, sock) ∷ others) ≡ ok (some id)
  unfolding find_match suits
  Suits-entry id sock others s =
      rw (==_ne id mine.id s.other, s.known, s.mine_admits, s.other_admits)

  Passed-entry :
      (id : ℕ) (sock : Socket) (others : Dict ℕ Socket)
      → Passed id
      → find_match w redis mine filters ((id, sock) ∷ others)
        ≡ find_match w redis mine filters others
  unfolding find_match suits
  Passed-entry id sock others (self e) = ground (arith)
  Passed-entry id sock others (unknown e) = ground arith
  Passed-entry id sock others (refused d f e h) = ground arith

  find_match_complete :
      (before : Dict ℕ Socket) (id : ℕ) (sock : Socket) (after : Dict ℕ Socket)
      → All (λ e. Passed e.0) before
      → Suits id
      → find_match w redis mine filters (before ++ (id, sock) ∷ after) ≡ ok (some id)
  find_match_complete [] id sock after p s = Suits-entry id sock after s
  find_match_complete ((k, sk) ∷ before) id sock after p s =
      rw (Passed-entry k sk (before ++ (id, sock) ∷ after) p.0)
        (find_match_complete before id sock after p.1 s)

  -- The loop finds a user if and only if it is the first in the queue that suits: all that wait
  -- before it are passed.
  pub find_match_iff :
      (queue : Dict ℕ Socket) (id : ℕ)
      → (find_match w redis mine filters queue ≡ ok (some id)) ↔ Found queue id
  find_match_iff queue id = (
    find_match-Found queue id,
    λ f. rw f.split (find_match_complete f.before id f.sock f.after f.passed f.suits_both),
  )
