-- ===== src/Core/Audit/Evidence.antt =====
-- core/audit.py: `record` and `verify_chain` together, and what a head says of its chain.
use flexyvotes.Base.{
  ℕ, suc, ◌+◌, ◌≡◌, ◌≢◌, ◌⊎◌, inl, inr, refl, sym, ◌∙◌, ap, ap₂, subst, Bool, true, false, not,
  Option, none, some, List, [], ◌∷◌, ◌++◌, length, ◌==◌, if◌then◌else◌, arith, append_assoc,
  append-nil, ==→eq, eq→==,
}
use flexyvotes.Core.Merkle.Tree.{Collision, bytes-discrete, append-injective}
use flexyvotes.Core.Audit.{
  AuditFields, AuditEvent, AuditChainHead, AuditChain, intact, Walk, stopped, reached, compute_hash,
  head_for_update, new_event, record_event, walk, check_head, verify_chain, record_all,
}

reached-injective : (h n h' n' : ℕ) → reached h n ≡ reached h' n' → h ≡ h' × n ≡ n'
reached-injective h n h' n' e = (cc, cc)

if_stopped :
    (b : Bool) (v w : Walk) (h n : ℕ)
    → v ≢ reached h n
    → (if not b then v else w) ≡ reached h n
    → b ≡ true × w ≡ reached h n
if_stopped true v w h n s e = (refl, e)
if_stopped false v w h n s e = absurd (s e)

same_event :
    (r r' : AuditEvent)
    → r.fields ≡ r'.fields
    → r.prev_hash ≡ r'.prev_hash
    → r.hash ≡ r'.hash
    → r ≡ r'
same_event r r' f p h = cc

module _ (sha256_hex : List ℕ → ℕ) (ascii : ℕ → List ℕ)
    (canonical_json : AuditFields → List ℕ) where
  -- A row that the loop accepts.
  abbrev pub IsLink : (prev seq : ℕ) → AuditEvent → Type 0
  IsLink prev seq r =
      (r.fields.seq ≡ seq)
      × (r.prev_hash ≡ prev)
      × (r.hash ≡ compute_hash sha256_hex ascii canonical_json prev r.fields)

  walk-link :
      (prev seq count : ℕ) (r : AuditEvent) (rows : List AuditEvent)
      → IsLink prev seq r
      → walk sha256_hex ascii canonical_json prev seq count (r ∷ rows)
        ≡ walk sha256_hex ascii canonical_json r.hash (seq + 1) (count + 1) rows
  unfolding walk
  walk-link prev seq count r rows l =
      rw
        (
          eq→== r.fields.seq seq l.0,
          eq→== r.prev_hash prev l.1,
          eq→== (compute_hash sha256_hex ascii canonical_json prev r.fields) r.hash (sym l.2),
        )
        refl

  walk-reached :
      (prev seq count : ℕ) (r : AuditEvent) (rows : List AuditEvent) (h n : ℕ)
      → walk sha256_hex ascii canonical_json prev seq count (r ∷ rows) ≡ reached h n
      → IsLink prev seq r
        × walk sha256_hex ascii canonical_json r.hash (seq + 1) (count + 1) rows ≡ reached h n
  unfolding walk
  walk-reached prev seq count r rows h n e =
      let first = if_stopped (r.fields.seq == seq) _ _ h n (λ t. cc) e in
      let second = if_stopped (r.prev_hash == prev) _ _ h n (λ t. cc) first.1 in
      let third =
        if_stopped (compute_hash sha256_hex ascii canonical_json prev r.fields == r.hash) _ _ h n
          (λ t. cc) second.1 in
      (
        (
          ==→eq r.fields.seq seq first.0,
          ==→eq r.prev_hash prev second.0,
          sym (==→eq _ r.hash third.0),
        ),
        third.1,
      )

  -- The chains that end in a hash after so many rows.
  pub data Chained (genesis : ℕ) : List AuditEvent → ℕ → ℕ → Type 0 where
    starts : (prev n : ℕ) → prev ≡ genesis → n ≡ 0 → Chained genesis [] prev n
    goes_on :
        (rows rows' : List AuditEvent) (prev n m h : ℕ) (r : AuditEvent)
        → Chained genesis rows prev n
        → IsLink prev (n + 1) r
        → rows' ≡ rows ++ (r ∷ [])
        → h ≡ r.hash
        → m ≡ n + 1
        → Chained genesis rows' h m

  walk-append :
      (prev n : ℕ) (rows : List AuditEvent) (r : AuditEvent) (h m : ℕ)
      → walk sha256_hex ascii canonical_json prev (n + 1) n rows ≡ reached h m
      → IsLink h (m + 1) r
      → walk sha256_hex ascii canonical_json prev (n + 1) n (rows ++ (r ∷ []))
        ≡ reached r.hash (m + 1)
  unfolding walk
  walk-append prev n [] r h m e l =
      let same = reached-injective prev n h m e in
      subst
        (λ p. walk sha256_hex ascii canonical_json p (n + 1) n (r ∷ []) ≡ reached r.hash (m + 1))
        (sym same.0)
        (subst
          (λ k. walk sha256_hex ascii canonical_json h (k + 1) k (r ∷ []) ≡ reached r.hash (m + 1))
          (sym same.1) (walk-link h (m + 1) m r [] l))
  walk-append prev n (s ∷ rows) r h m e l =
      let step = walk-reached prev (n + 1) n s rows h m e in
      walk-link prev (n + 1) n s (rows ++ (r ∷ [])) step.0
      ∙ walk-append s.hash (n + 1) rows r h m step.1 l

  walk-Chained :
      (genesis : ℕ) (before rows : List AuditEvent) (prev n h m : ℕ)
      → Chained genesis before prev n
      → walk sha256_hex ascii canonical_json prev (n + 1) n rows ≡ reached h m
      → Chained genesis (before ++ rows) h m
  unfolding walk
  walk-Chained genesis before [] prev n h m c e =
      let same = reached-injective prev n h m e in
      rw (append-nil before) (
        subst (λ p. Chained genesis before p m) same.0
          (subst (Chained genesis before prev) same.1 c))
  walk-Chained genesis before (r ∷ rows) prev n h m c e =
      let step = walk-reached prev (n + 1) n r rows h m e in
      subst (λ t. Chained genesis t h m) (append_assoc before (r ∷ []) rows)
        (walk-Chained genesis (before ++ (r ∷ [])) rows r.hash (n + 1) h m
          (goes_on before (before ++ (r ∷ [])) prev n (n + 1) r.hash r c step.0 refl refl refl)
          step.1)

  module _ (genesis : ℕ) (ascii_injective : (d d' : ℕ) → ascii d ≡ ascii d' → d ≡ d')
      (canonical_json_injective : (f f' : AuditFields)
        → canonical_json f ≡ canonical_json f'
        → f ≡ f')
      (length-digest : (xs : List ℕ) → length (ascii (sha256_hex xs)) ≡ 64)
      (length-genesis : length (ascii genesis) ≡ 64) where
    same_or_collision :
        (xs ys : List ℕ) → sha256_hex xs ≡ sha256_hex ys → (xs ≡ ys) ⊎ Collision sha256_hex ascii
    same_or_collision xs ys h = elim (bytes-discrete xs ys) [
      | yes e ↦ inl e
      | no ne ↦ inr (record { first = xs; second = ys; distinct = ne; same_digest = h })
    ]

    Chained-length :
        {rows : List AuditEvent} {h n : ℕ} → Chained genesis rows h n → length (ascii h) ≡ 64
    unfolding compute_hash
    Chained-length (starts p n e z) = ap (λ t. length (ascii t)) e ∙ length-genesis
    Chained-length (goes_on rows rows' prev n m h r c l q e z) =
        ap (λ t. length (ascii t)) (e ∙ l.2) ∙ length-digest (ascii prev ++ canonical_json r.fields)

    Chained-fixed :
        {rows rows' : List AuditEvent} {h n : ℕ}
        → Chained genesis rows h n
        → Chained genesis rows' h n
        → (rows ≡ rows') ⊎ Collision sha256_hex ascii
    unfolding compute_hash
    Chained-fixed (starts p n e z) (starts p' n' e' z') = inl refl
    Chained-fixed (starts p n e z) (goes_on rows rows' prev k m h r c l q e' z') =
        absurd (omega (arith, z, z'))
    Chained-fixed (goes_on rows rows' prev k m h r c l q e z) (starts p n e' z') =
        absurd (omega (arith, z, z'))
    Chained-fixed (goes_on rows rows1 prev k m h r c l q e z)
          (goes_on rows' rows1' prev' k' m' h' r' c' l' q' e' z') =
        elim (same_or_collision (ascii prev ++ canonical_json r.fields)
          (ascii prev' ++ canonical_json r'.fields) (sym l.2 ∙ sym e ∙ e' ∙ l'.2)) [
            | inr bad ↦ inr bad
            | inl bytes ↦
                let parts =
                  append-injective (ascii prev) (canonical_json r.fields) (ascii prev')
                    (canonical_json r'.fields) (Chained-length c ∙ sym (Chained-length c')) bytes in
                let same_prev : prev' ≡ prev = ascii_injective prev' prev (sym parts.0) in
                let same_count : k' ≡ k = omega (arith, z, z') in
                let same_fields = canonical_json_injective r.fields r'.fields parts.1 in
                elim (Chained-fixed c (
                  subst (λ d. Chained genesis rows' d k) same_prev
                    (subst (Chained genesis rows' prev') same_count c'))) [
                      | inr bad ↦ inr bad
                      | inl same_rows ↦ inl (
                          q
                          ∙ ap₂ (λ a b. a ++ (b ∷ [])) same_rows
                              (same_event r r' same_fields (l.1 ∙ sym same_prev ∙ sym l'.1)
                                (sym e ∙ e'))
                          ∙ sym q')
                    ]
          ]

    reached_of_intact :
        (h : AuditChainHead) (w : Walk) (n : ℕ)
        → check_head (some h) w ≡ intact n
        → w ≡ reached h.last_hash h.seq
    unfolding check_head
    reached_of_intact h (stopped k l f) n e = cc
    reached_of_intact h (reached p k) n e = ground arith

    -- Two chains with the same head that both verify have the same rows, field by field, or two different
    -- texts with one SHA-256 digest are at hand. The canonical JSON is different for different fields,
    -- and a digest is 64 characters in ASCII.
    pub verify_chain-fixed :
        (c c' : AuditChain) (h : AuditChainHead) (n n' : ℕ)
        → c.head ≡ some h
        → c'.head ≡ some h
        → verify_chain sha256_hex ascii canonical_json genesis c ≡ intact n
        → verify_chain sha256_hex ascii canonical_json genesis c' ≡ intact n'
        → (c.rows ≡ c'.rows) ⊎ Collision sha256_hex ascii
    unfolding verify_chain
    verify_chain-fixed c c' h n n' e e' v v' = Chained-fixed (chained c n e v) (chained c' n' e' v')
      where
        chained :
            (d : AuditChain) (k : ℕ)
            → d.head ≡ some h
            → verify_chain sha256_hex ascii canonical_json genesis d ≡ intact k
            → Chained genesis d.rows h.last_hash h.seq
        chained d k q w =
            walk-Chained genesis [] d.rows genesis 0 h.last_hash h.seq (starts genesis 0 refl refl)
              (reached_of_intact h (walk sha256_hex ascii canonical_json genesis 1 0 d.rows) k (
                subst
                  (λ x.
                    check_head x (walk sha256_hex ascii canonical_json genesis 1 0 d.rows)
                    ≡ intact k)
                  q w))

  module _ (genesis : ℕ) where
    -- The loop ends at the head.
    IsUpToDate : AuditChain → Type 0
    IsUpToDate c =
        walk sha256_hex ascii canonical_json genesis 1 0 c.rows
        ≡ reached (head_for_update sha256_hex ascii canonical_json genesis c.head).last_hash
            (head_for_update sha256_hex ascii canonical_json genesis c.head).seq

    record_event-IsUpToDate :
        (call : AuditFields) (c : AuditChain)
        → IsUpToDate c
        → IsUpToDate (record_event sha256_hex ascii canonical_json genesis call c)
    unfolding record_event IsUpToDate
    record_event-IsUpToDate call c u =
        let h : AuditChainHead = head_for_update sha256_hex ascii canonical_json genesis c.head in
        walk-append genesis 0 c.rows (new_event sha256_hex ascii canonical_json call h) h.last_hash
          h.seq u (refl, refl, refl)

    record_all-IsUpToDate :
        (calls : List AuditFields) (c : AuditChain)
        → IsUpToDate c
        → IsUpToDate (record_all sha256_hex ascii canonical_json genesis calls c)
          × (head_for_update sha256_hex ascii canonical_json genesis
              (record_all sha256_hex ascii canonical_json genesis calls c).head).seq
            ≡ (head_for_update sha256_hex ascii canonical_json genesis c.head).seq + length calls
    unfolding record_all
    record_all-IsUpToDate [] c u = (u, omega arith)
    record_all-IsUpToDate (call ∷ calls) c u =
        let rest =
          record_all-IsUpToDate calls (record_event sha256_hex ascii canonical_json genesis call c)
            (record_event-IsUpToDate call c u) in
        (rest.0, rest.1 ∙ next_seq (length calls))
      where
        next_seq :
            (n : ℕ)
            → (head_for_update sha256_hex ascii canonical_json genesis
                  (record_event sha256_hex ascii canonical_json genesis call c).head).seq
                + n
              ≡ (head_for_update sha256_hex ascii canonical_json genesis c.head).seq + suc n
        next_seq n = omega arith

    check_reached :
        (head : Option AuditChainHead)
        → check_head head (
            reached
              (head_for_update sha256_hex ascii canonical_json genesis head).last_hash
              (head_for_update sha256_hex ascii canonical_json genesis head).seq)
          ≡ intact (head_for_update sha256_hex ascii canonical_json genesis head).seq
    unfolding check_head head_for_update
    check_reached none = refl
    check_reached (some h) = ground arith

    -- A chain that is written by calls of `record` only, on an empty table, verifies, and the count is the
    -- number of the calls.
    pub record_all-verifies :
        (calls : List AuditFields)
        → verify_chain sha256_hex ascii canonical_json genesis (
            record_all sha256_hex ascii canonical_json genesis calls
              (record { rows = []; head = none }))
          ≡ intact (length calls)
    unfolding verify_chain IsUpToDate walk head_for_update
    record_all-verifies calls =
        let c : AuditChain =
          record_all sha256_hex ascii canonical_json genesis calls
            (record { rows = []; head = none }) in
        let u = record_all-IsUpToDate calls (record { rows = []; head = none }) refl in
        ap (check_head c.head) u.0
        ∙ check_reached c.head
        ∙ ap intact (u.1 ∙ zero_plus (length calls))
      where
        zero_plus : (n : ℕ) → 0 + n ≡ n
        zero_plus n = omega arith
