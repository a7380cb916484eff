-- ===== src/Refinement/Setting.antt =====
-- A pass, its store and the other callers: the frame in which every record moves by steps of the
-- protocol, and what the store's operations do in it.
use corrobo.Base.{
  ℕ, suc, String, ◌≡◌, refl, subst, inl, inr, Option, none, some, arith, str_eq, eq_iff, Bool-cases,
}
use corrobo.Types.{OperationRecord, EffectContract, HookResult}
use corrobo.Fault.{Outcome, ok, thrown}
use corrobo.Store.{NewOperationInput, created, stamped}
use corrobo.Store.Kept.{kept_creation}
use corrobo.Store.Laws.{
  Records, store_at, ReadsRecord, Wrote, MayWrite, Created, MayCreate, StoreLaws,
}
use corrobo.Runtime.Monad.{
  Host, World, Call, now_iso, on_store, await_hook, call_hook, random_nonce, safety_now,
}
use corrobo.Runtime.Frame.{Frame, Does, Gives, Stable, witnessed, weaken}
use corrobo.Refinement.Clock.{IsReading, safety_now-IsReading}
use corrobo.Protocol.{
  Step, Steps, done, more, create, Steps-trans, Evolved, Evolved-Steps, NamedBy, NamedBy-Steps,
}

store_at_self : (id : String) (r : OperationRecord) (rs : Records) → store_at id r rs id ≡ some r
unfolding store_at
store_at_self id r rs = ground (arith, eq_iff id id)

-- One record moves by a step, and the others stay.
Steps-store_at :
    (c : EffectContract) (Reading : ℕ → Type 0) (id : String) (r : OperationRecord) (rs : Records)
    → Step c Reading id (rs id) (some r)
    → (k : String) → Steps c Reading k (rs k) (store_at id r rs k)
unfolding store_at
Steps-store_at c Reading id r rs s k = elim (Bool-cases (str_eq id k)) [
  | inl same ↦
      rw same (subst (λ j. Steps c Reading j (rs j) (some r)) ((eq_iff id k).0 same) (more done s))
  | inr other ↦ rw other done
]

-- No two versions of a record are the same: what has the version that was read is what was read.
same_version : (r old : OperationRecord) → old.version ≡ r.version → Evolved r (some old) → old ≡ r
same_version r old ver (inl e) = e
same_version r old ver (inr lt) = absurd (omega arith)

module _ {S : Type 0} (h : Host S) (laws : StoreLaws h.store) (c : EffectContract) where
  abbrev pub record_at : World S → Records
  record_at w = laws.view w.state

  -- What the other callers do meanwhile is lawful too.
  abbrev pub AreLawful : Type 0
  AreLawful =
      (n : ℕ) (s : S) (id : String)
      → Steps c (IsReading h) id (laws.view s id) (laws.view (h.others n s) id)

  abbrev pub protocol : Frame S
  protocol = record {
    Allowed = λ v w. (id : String) → Steps c (IsReading h) id (record_at v id) (record_at w id);
    allowed_refl = λ w id. done;
    allowed_trans = λ u v w a b id. Steps-trans (a id) (b id);
  }

  -- A record as it was read, which may have moved on since.
  abbrev pub Knows : OperationRecord → World S → Type 0
  Knows r w = Evolved r (record_at w r.identity.id)

  abbrev pub AllNamed : World S → Type 0
  AllNamed w = (id : String) → NamedBy id (record_at w id)

  pub Knows-Stable : (r : OperationRecord) → Stable protocol (Knows r)
  Knows-Stable r v w a k = Evolved-Steps r (a r.identity.id) k

  pub AllNamed-Stable : Stable protocol AllNamed
  AllNamed-Stable v w a k id = NamedBy-Steps (a id) (k id)

  abbrev moved : World S → Outcome (Option OperationRecord) × S → World S
  moved w o = record w { state = o.1; ticks = suc w.ticks }

  reads_from :
      {P : World S → Type 0} (id : String) (stable : Stable protocol P) (w v : World S)
      (o : Outcome (Option OperationRecord) × S)
      → ((k : String) → Steps c (IsReading h) k (record_at w k) (record_at v k))
      → P v
      → ReadsRecord laws.view id v.state o
      → ((k : String) → Steps c (IsReading h) k (record_at w k) (laws.view o.1 k))
        × Gives {S = S} (λ found u. P u × (found ≡ record_at u id)) (o.0, moved w o)
  reads_from id stable w v (ok found, s) a p (e, same) =
      (λ k. rw same (a k), (stable v _ (λ k. rw same done) p, rw same e))
  reads_from id stable w v (thrown f, s) a p same = (λ k. rw same (a k), tt)

  -- A write based on the record `r` that was read: the store's version check makes it a step from
  -- `r` itself.
  Wrote-from :
      (r : OperationRecord) (change : OperationRecord → OperationRecord) (w v : World S) (s : S)
      (r' : OperationRecord)
      → ((n : ℕ) → Step c (IsReading h) r.identity.id (some r) (some (stamped n (change r))))
      → ((k : String) → Steps c (IsReading h) k (record_at w k) (record_at v k))
      → Knows r v
      → Wrote laws.view r.identity.id r.version change v.state s r'
      → ((k : String) → Steps c (IsReading h) k (record_at w k) (laws.view s k))
        × (laws.view s r.identity.id ≡ some r')
        × (n : ℕ) × (r' ≡ stamped n (change r))
  Wrote-from r change w v s r' step a kn (old, t, found, ver, made, same) =
      let e : old ≡ r = same_version r old ver (subst (Evolved r) found kn) in
      let made' : r' ≡ stamped t (change r) = rw e at made in
      let step' : Step c (IsReading h) r.identity.id (laws.view v.state r.identity.id) (some r') =
        rw (found, e, made') (step t) in
      (
        λ k. rw same (
            Steps-trans (a k)
              (Steps-store_at c (IsReading h) r.identity.id r' (laws.view v.state) step' k)),
        rw same (store_at_self r.identity.id r' (laws.view v.state)),
        t,
        made',
      )

  writes_from :
      (r : OperationRecord) (change : OperationRecord → OperationRecord) (w v : World S)
      (o : Outcome OperationRecord × S)
      → ((n : ℕ) → Step c (IsReading h) r.identity.id (some r) (some (stamped n (change r))))
      → ((k : String) → Steps c (IsReading h) k (record_at w k) (record_at v k))
      → Knows r v
      → MayWrite laws.view r.identity.id r.version change v.state o
      → ((k : String) → Steps c (IsReading h) k (record_at w k) (laws.view o.1 k))
        × Gives {S = S}
            (λ r' u. (record_at u r.identity.id ≡ some r') × (n : ℕ) × (r' ≡ stamped n (change r)))
            (o.0, record w { state = o.1; ticks = suc w.ticks })
  writes_from r change w v (thrown f, s) step a kn (inl same) = (λ k. rw same (a k), tt)
  writes_from r change w v (thrown f, s) step a kn (inr (r', wrote)) =
      ((Wrote-from r change w v s r' step a kn wrote).0, tt)
  writes_from r change w v (ok r', s) step a kn wrote =
      let (b, found, n, made) = Wrote-from r change w v s r' step a kn wrote in
      (b, (found, n, made))

  created_from :
      (i : NewOperationInput) (w v : World S) (s : S) (r : OperationRecord)
      → ((k : String) → Steps c (IsReading h) k (record_at w k) (record_at v k))
      → Created laws.view i v.state s r
      → ((k : String) → Steps c (IsReading h) k (record_at w k) (laws.view s k))
        × (laws.view s i.identity.id ≡ some r)
        × (n : ℕ) × (r ≡ created n i)
  created_from i w v s r a (t, absent, made, same) =
      let step : Step c (IsReading h) i.identity.id (laws.view v.state i.identity.id) (some r) =
        rw (absent, made) (create t i refl) in
      (
        λ k. rw same (
            Steps-trans (a k)
              (Steps-store_at c (IsReading h) i.identity.id r (laws.view v.state) step k)),
        rw same (store_at_self i.identity.id r (laws.view v.state)),
        t,
        made,
      )

  creates_from :
      (i : NewOperationInput) (w v : World S) (o : Outcome OperationRecord × S)
      → ((k : String) → Steps c (IsReading h) k (record_at w k) (record_at v k))
      → MayCreate laws.view i v.state o
      → ((k : String) → Steps c (IsReading h) k (record_at w k) (laws.view o.1 k))
        × Gives {S = S}
            (λ r u. (record_at u i.identity.id ≡ some r) × (n : ℕ) × (r ≡ created n i))
            (o.0, record w { state = o.1; ticks = suc w.ticks })
  creates_from i w v (thrown f, s) a (inl same) = (λ k. rw same (a k), tt)
  creates_from i w v (thrown f, s) a (inr (r, made)) = ((created_from i w v s r a made).0, tt)
  creates_from i w v (ok r, s) a made =
      let (b, found, n, new) = created_from i w v s r a made in (b, (found, n, new))

  module _ (lawful : AreLawful) {P : World S → Type 0} (stable : Stable protocol P) where
    pub now_iso_does : Does protocol P (now_iso h) (λ t w. P w)
    unfolding now_iso
    now_iso_does = record { at = λ w p. (λ id. done, stable w _ (λ id. done) p) }

    -- What leaves the records alone.
    pub await_hook_does :
        (call : Call) (f : ℕ → HookResult) → Does protocol P (await_hook h call f) (λ a w. P w)
    unfolding await_hook
    await_hook_does call f = record {
      at = λ w p. (lawful w.ticks w.state, stable w _ (lawful w.ticks w.state) p);
    }

    pub call_hook_does :
        (call : Call) (f : ℕ → HookResult) → Does protocol P (call_hook h call f) (λ a w. P w)
    unfolding call_hook
    call_hook_does call f = record { at = λ w p. (λ id. done, stable w _ (λ id. done) p) }

    pub random_nonce_does : Does protocol P (random_nonce h) (λ a w. P w)
    unfolding random_nonce
    random_nonce_does = record { at = λ w p. (λ id. done, stable w _ (λ id. done) p) }

    quiet_from :
        {A : Type 0} (w v : World S) (o : Outcome A × S)
        → ((k : String) → Steps c (IsReading h) k (record_at w k) (record_at v k))
        → P w
        → laws.view o.1 ≡ laws.view v.state
        → ((k : String) → Steps c (IsReading h) k (record_at w k) (laws.view o.1 k))
          × Gives {S = S} (λ a u. P u) (o.0, record w { state = o.1; ticks = suc w.ticks })
    quiet_from w v (thrown f, s) a p same = (λ k. rw same (a k), tt)
    quiet_from w v (ok r, s) a p same =
        let b : (k : String) → Steps c (IsReading h) k (record_at w k) (laws.view s k) =
          λ k. rw same (a k) in
        (b, stable w _ b p)

    pub quiet_does :
        {A : Type 0} (op : ℕ → S → Outcome A × S)
        → ((n : ℕ) (s : S) → laws.view (op n s).1 ≡ laws.view s)
        → Does protocol P (on_store h op) (λ a w. P w)
    unfolding on_store
    quiet_does op q = record {
      at = λ w p.
          let s = h.others w.ticks w.state in
          quiet_from w (record w { state = s }) (op (h.clock w.ticks) s) (lawful w.ticks w.state) p
            (q (h.clock w.ticks) s);
    }

    safety_clock_does :
        (now : Option (ℕ → S → Outcome ℕ × S))
        → h.store.now ≡ now
        → Does protocol P (elim now [ some read ↦ on_store h read | none ↦ now_iso h ]) (λ t w. P w)
    safety_clock_does none e = now_iso_does
    safety_clock_does (some read) e = quiet_does read (laws.now_lem read e)

    pub safety_now_does : Does protocol P (safety_now h) (λ t w. P w)
    unfolding safety_now
    safety_now_does = safety_clock_does h.store.now refl

    -- And its result is a reading of the clock.
    pub IsReading-does : Does protocol P (safety_now h) (λ t w. P w × IsReading h t)
    IsReading-does =
        weaken protocol (λ w p. p) (witnessed protocol safety_now_does)
          (λ t w q. (q.0, safety_now-IsReading h t q.1))

    pub reads_does :
        (id : String)
        → Does protocol P
            (on_store h (λ n. h.store.get_operation id))
            (λ found w. P w × (found ≡ record_at w id))
    unfolding on_store
    reads_does id = record {
      at = λ w p.
          let s = h.others w.ticks w.state in
          let v : World S = record w { state = s } in
          reads_from id stable w v (h.store.get_operation id s) (lawful w.ticks w.state)
            (stable w v (lawful w.ticks w.state) p) (laws.get_operation_lem id s);
    }

  module _ (lawful : AreLawful) where
    pub writes_does :
        (r : OperationRecord) (change : OperationRecord → OperationRecord)
        (op : ℕ → S → Outcome OperationRecord × S)
        → ((n : ℕ) (s : S) → MayWrite laws.view r.identity.id r.version change s (op n s))
        → ((n : ℕ) → Step c (IsReading h) r.identity.id (some r) (some (stamped n (change r))))
        → Does protocol
            (Knows r)
            (on_store h op)
            (λ r' w. (record_at w r.identity.id ≡ some r') × (n : ℕ) × (r' ≡ stamped n (change r)))
    unfolding on_store
    writes_does r change op law step = record {
      at = λ w kn.
          let s = h.others w.ticks w.state in
          let v : World S = record w { state = s } in
          let n = h.clock w.ticks in
          writes_from r change w v (op n s) step (lawful w.ticks w.state)
            (Knows-Stable r w v (lawful w.ticks w.state) kn) (law n s);
    }

    pub creates_does :
        (P : World S → Type 0) (i : NewOperationInput)
        → Does protocol P (on_store h (λ n. h.store.create_operation n i)) (λ r w.
          (record_at w i.identity.id ≡ some r)
          × (n : ℕ) × (r ≡ created n (kept_creation laws.kept i)))
    unfolding on_store
    creates_does P i = record {
      at = λ w p.
          let s = h.others w.ticks w.state in
          let v : World S = record w { state = s } in
          let n = h.clock w.ticks in
          creates_from (kept_creation laws.kept i) w v (h.store.create_operation n i s)
            (lawful w.ticks w.state) (laws.create_operation_lem n i s);
    }
