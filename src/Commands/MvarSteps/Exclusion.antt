-- ===== src/Commands/MvarSteps/Exclusion.antt =====
-- Userland/Shell/commands.c: the writers and readers of mvar take turns.
use tp2_sistemas_operativos.Prelude.{
  ℕ, ◌≡◌, ◌≢◌, ◌⊎◌, inl, inr, refl, sym, ap, subst, ◌∙◌, arith, [], ◌∷◌, ◌++◌, Option, none, some,
  Bool, true, false, ◌==◌, ==_iff, Bool-cases, update, update_self, update_ne,
}
use tp2_sistemas_operativos.Commands.MvarSteps.{
  Shared, Pc, idle, w_empty, w_mutex, w_value, w_flag, w_unlock, r_full, r_mutex, r_value, r_flag,
  r_print, r_unlock, Move, wait_empty, lock_write, store, set_full, unlock_write, post_full,
  wait_full, lock_read, load, set_empty, print, unlock_read, post_empty, System, Step, pick, Reach,
  begin, later,
}

abbrev pub is_idle : Pc → Bool
is_idle idle = true
is_idle _ = false

-- Every letter stored has been printed; or every one but the last, which `value` holds.
abbrev Done : Shared → Type 0
Done m = m.stored ≡ m.printed

abbrev Pending : Shared → Type 0
Pending m = m.stored ≡ m.printed ++ m.value ∷ []

abbrev Units : Shared → ℕ → ℕ → ℕ → Type 0
Units m mutex empty full = (m.sem_mutex ≡ mutex) × (m.sem_empty ≡ empty) × (m.sem_full ≡ full)

-- The state where every process but the one at the place named is idle.
abbrev Local : Shared → Pc → Type 0
Local m idle =
    (Units m 1 1 0 × (m.is_empty ≡ 1) × Done m) ⊎ (Units m 1 0 1 × (m.is_empty ≡ 0) × Pending m)
Local m (w_empty c) = Units m 1 0 0 × Done m
Local m (w_mutex c) = Units m 0 0 0 × Done m
Local m w_value = Units m 0 0 0 × Pending m
Local m w_flag = Units m 0 0 0 × (m.is_empty ≡ 0) × Pending m
Local m w_unlock = Units m 1 0 0 × (m.is_empty ≡ 0) × Pending m
Local m r_full = Units m 1 0 0 × Pending m
Local m r_mutex = Units m 0 0 0 × Pending m
Local m (r_value v) = Units m 0 0 0 × (m.value ≡ v) × Pending m
Local m (r_flag v) = Units m 0 0 0 × (m.is_empty ≡ 1) × (m.value ≡ v) × Pending m
Local m r_print = Units m 0 0 0 × (m.is_empty ≡ 1) × Done m
Local m r_unlock = Units m 1 0 0 × (m.is_empty ≡ 1) × Done m

Move-Local : {role : Option ℕ} {m n : Shared} {p q : Pc} → Move role m p n q → Local m p → Local n q
Move-Local (wait_empty e lt) (inl (u, f, d)) = (omega (arith, u.0, u.1, u.2), d)
Move-Local (wait_empty e lt) (inr (u, f, d)) = absurd (omega (arith, u.1))
Move-Local (lock_write lt) (u, d) = (omega (arith, u.0, u.1, u.2), d)
Move-Local (store {letter}) (u, d) = (u, ap (λ l. l ++ letter ∷ []) d)
Move-Local set_full (u, d) = (u, refl, d)
Move-Local unlock_write (u, f, d) = (omega (arith, u.0, u.1, u.2), f, d)
Move-Local post_full (u, f, d) = inr (omega (arith, u.0, u.1, u.2), f, d)
Move-Local (wait_full e lt) (inl (u, f, d)) = absurd (omega (arith, u.2))
Move-Local (wait_full e lt) (inr (u, f, d)) = (omega (arith, u.0, u.1, u.2), d)
Move-Local (lock_read lt) (u, d) = (omega (arith, u.0, u.1, u.2), d)
Move-Local load (u, d) = (u, refl, d)
Move-Local set_empty (u, v, d) = (u, refl, v, d)
Move-Local {m} (print {v}) (u, f, e, d) = (u, f, d ∙ ap (λ x. m.printed ++ x ∷ []) e)
Move-Local unlock_read (u, f, d) = (omega (arith, u.0, u.1, u.2), f, d)
Move-Local post_empty (u, f, d) = inl (omega (arith, u.0, u.1, u.2), f, d)

-- At most one process, `only`, is not idle.
record Inv (s : System) : Type 0 where
  only : ℕ
  others : (j : ℕ) → j ≢ only → s.pc j ≡ idle
  local : Local s.mem (s.pc only)

-- Away from idle, no process can leave idle.
busy_units :
    (m : Shared) (p : Pc) → is_idle p ≡ false → Local m p → (m.sem_empty ≡ 0) × (m.sem_full ≡ 0)
busy_units m idle e l = absurd (cc e)
busy_units m p e l = (l.0.1, l.0.2)

no_entry :
    {role : Option ℕ} {m n : Shared} {p q : Pc}
    → Move role m p n q
    → is_idle p ≡ true
    → m.sem_empty ≡ 0
    → m.sem_full ≡ 0
    → ⊥
no_entry (wait_empty e lt) i a b = absurd (omega (arith, a))
no_entry (lock_write lt) i a b = cc i
no_entry store i a b = cc i
no_entry set_full i a b = cc i
no_entry unlock_write i a b = cc i
no_entry post_full i a b = cc i
no_entry (wait_full e lt) i a b = absurd (omega (arith, b))
no_entry (lock_read lt) i a b = cc i
no_entry load i a b = cc i
no_entry set_empty i a b = cc i
no_entry print i a b = cc i
no_entry unlock_read i a b = cc i
no_entry post_empty i a b = cc i

is_idle→idle : (p : Pc) → is_idle p ≡ true → p ≡ idle
is_idle→idle idle e = refl
is_idle→idle p e = absurd (cc e)

-- The process that moves becomes the one that may not be idle.
moved :
    (s : System) (i : ℕ) (m : Shared) (p : Pc)
    → ((j : ℕ) → j ≢ i → s.pc j ≡ idle)
    → Local m p
    → Inv (record { mem = m; pc = update s.pc i p })
moved s i m p others l = record {
  only = i;
  others = λ j ne. update_ne s.pc p {i = i} {j = j} (λ e. ne (sym e)) ∙ others j ne;
  local = subst (Local m) (sym (update_self s.pc p i)) l;
}

-- Where the process `k` is idle as well, every one is.
all_idle :
    (s : System) (k : ℕ)
    → ((j : ℕ) → j ≢ k → s.pc j ≡ idle)
    → s.pc k ≡ idle
    → (j : ℕ) → s.pc j ≡ idle
all_idle s k others e j = elim (Bool-cases (j == k)) [
  | inl same ↦ ap s.pc ((==_iff j k).0 same) ∙ e
  | inr apart ↦ others j (λ z. absurd (cc ((==_iff j k).1 z, apart)))
]

Step-Inv : {roles : ℕ → Option ℕ} {s t : System} → Step roles s t → Inv s → Inv t
Step-Inv {s} (pick i {m} {p} mv) inv = elim (Bool-cases (i == inv.only)) [
  | inl same ↦
      let e : inv.only ≡ i = sym ((==_iff i inv.only).0 same) in
      moved s i m p (λ j ne. inv.others j (λ z. ne (z ∙ e)))
        (Move-Local mv (subst (λ k. Local s.mem (s.pc k)) e inv.local))
  | inr apart ↦
      let here : s.pc i ≡ idle = inv.others i (λ z. absurd (cc ((==_iff i inv.only).1 z, apart))) in
      elim (Bool-cases (is_idle (s.pc inv.only))) [
        | inl quiet ↦
            let e = is_idle→idle (s.pc inv.only) quiet in
            moved s i m p (λ j _. all_idle s inv.only inv.others e j)
              (Move-Local mv (subst (Local s.mem) (e ∙ sym here) inv.local))
        | inr busy ↦
            let (a, b) = busy_units s.mem (s.pc inv.only) busy inv.local in
            absurd (no_entry mv (ap is_idle here) a b)
      ]
]

Reach-Inv : {roles : ℕ → Option ℕ} {s : System} → Reach roles s → Inv s
Reach-Inv begin = record {
  only = 0;
  others = λ j ne. refl;
  local = inl ((refl, refl, refl), refl, refl);
}
Reach-Inv (later r st) = Step-Inv st (Reach-Inv r)

-- What the history says, wherever the one process stands.
Local-history : (m : Shared) (p : Pc) → Local m p → Done m ⊎ Pending m
Local-history m idle (inl (u, f, d)) = inl d
Local-history m idle (inr (u, f, d)) = inr d
Local-history m (w_empty c) (u, d) = inl d
Local-history m (w_mutex c) (u, d) = inl d
Local-history m w_value (u, d) = inr d
Local-history m w_flag (u, f, d) = inr d
Local-history m w_unlock (u, f, d) = inr d
Local-history m r_full (u, d) = inr d
Local-history m r_mutex (u, d) = inr d
Local-history m (r_value v) (u, e, d) = inr d
Local-history m (r_flag v) (u, f, e, d) = inr d
Local-history m r_print (u, f, d) = inl d
Local-history m r_unlock (u, f, d) = inl d

only_busy : (s : System) (inv : Inv s) (i : ℕ) → is_idle (s.pc i) ≡ false → i ≡ inv.only
only_busy s inv i busy = elim (Bool-cases (i == inv.only)) [
  | inl same ↦ (==_iff i inv.only).0 same
  | inr apart ↦
      absurd
        (cc (busy, ap is_idle (inv.others i (λ z. absurd (cc ((==_iff i inv.only).1 z, apart))))))
]

-- However many writers and readers run, in whatever order they take their steps from a start with new
-- semaphores: two of them are never both past their first wait, and every letter that was stored has
-- been printed once, in the order of the stores, but perhaps the last one, which `value` then holds.
pub mvar_turns :
    (roles : ℕ → Option ℕ) (s : System) (i j : ℕ)
    → Reach roles s
    → ((is_idle (s.pc i) ≡ false) → (is_idle (s.pc j) ≡ false) → i ≡ j)
      × ((s.mem.stored ≡ s.mem.printed) ⊎ (s.mem.stored ≡ s.mem.printed ++ s.mem.value ∷ []))
mvar_turns roles s i j r =
    let inv = Reach-Inv r in
    (
      (λ bi bj. only_busy s inv i bi ∙ sym (only_busy s inv j bj)),
      Local-history s.mem (s.pc inv.only) inv.local,
    )

-- The one process that is not idle can go on.
busy_moves :
    (role : Option ℕ) (m : Shared) (p : Pc)
    → is_idle p ≡ false
    → Local m p
    → (n : Shared) × (q : Pc) × Move role m p n q
busy_moves role m idle e l = absurd (cc e)
busy_moves role m (w_empty c) e (u, d) = (_, _, lock_write (omega (arith, u.0)))
busy_moves role m (w_mutex c) e l = (_, _, store)
busy_moves role m w_value e l = (_, _, set_full)
busy_moves role m w_flag e l = (_, _, unlock_write)
busy_moves role m w_unlock e l = (_, _, post_full)
busy_moves role m r_full e (u, d) = (_, _, lock_read (omega (arith, u.0)))
busy_moves role m r_mutex e l = (_, _, load)
busy_moves role m (r_value v) e l = (_, _, set_empty)
busy_moves role m (r_flag v) e l = (_, _, print)
busy_moves role m r_print e l = (_, _, unlock_read)
busy_moves role m r_unlock e l = (_, _, post_empty)

step_from :
    (roles : ℕ → Option ℕ) (s : System) (i : ℕ) (p : Pc)
    → s.pc i ≡ p
    → (n : Shared) × (q : Pc) × Move (roles i) s.mem p n q
    → (t : System) × Step roles s t
step_from roles s i p e (n, q, mv) =
    (_, pick i (subst (λ x. Move (roles i) s.mem x n q) (sym e) mv))

-- The processes never all wait: with a writer and a reader among them, in every state that they
-- reach from a start with new semaphores one of them can take a step.
pub mvar_progress :
    (roles : ℕ → Option ℕ) (s : System) (writer reader letter : ℕ)
    → roles writer ≡ some letter
    → roles reader ≡ none
    → Reach roles s
    → (t : System) × Step roles s t
mvar_progress roles s writer reader letter w r reach =
    let inv = Reach-Inv reach in
    elim (Bool-cases (is_idle (s.pc inv.only))) [
      | inl quiet ↦
          let e = is_idle→idle (s.pc inv.only) quiet in
          let idle_at = all_idle s inv.only inv.others e in
          elim (subst (Local s.mem) e inv.local) [
            | inl (u, f, d) ↦
                step_from roles s writer idle (idle_at writer)
                  (_, _, wait_empty w (omega (arith, u.1)))
            | inr (u, f, d) ↦
                step_from roles s reader idle (idle_at reader)
                  (_, _, wait_full r (omega (arith, u.2)))
          ]
      | inr busy ↦
          step_from roles s inv.only (s.pc inv.only) refl
            (busy_moves (roles inv.only) s.mem (s.pc inv.only) busy inv.local)
    ]
