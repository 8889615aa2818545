-- ===== src/Verify/Trials/Exact/Shifts.antt =====
-- The shift tests pass.
use native.Mathlib.Nat.{mod-eq_of_lt}
use bench_fft.Base.{
  ℕ, suc, ◌+◌, ◌*◌, ◌/◌, ◌%◌, ◌^◌, ◌<◌, ◌≤◌, ◌≡◌, refl, sym, ap, ◌∙◌, arith, Buffer, inl, inr,
  length, get_or, if◌then◌else◌,
}
use bench_fft.Base.Real.{Real, Complex, Libm}
use bench_fft.Base.Outcome.{◌>>=◌, Returns, Returns-ok, Returns-bind, Returns-loop}
use bench_fft.Problem.{Kind, Problem}
use bench_fft.Problem.Storage.Laws.{Kind-cases}
use bench_fft.Arrays.{is_real}
use bench_fft.Verify.{Session, do_fft, with_complexes, arand, mkreal}
use bench_fft.Verify.Laws.{drawn_value}
use bench_fft.Verify.Rows.Rotate.{rotated}
use bench_fft.Verify.Rows.Phase.{shifted}
use bench_fft.Verify.Rows.Shape.{
  before, before_zero, before-suc, rest, next_rest, rest-IsPositive, size-IsPositive, split-volume,
  size-le-volume, before-le-volume,
}
use bench_fft.Verify.Symmetry.{mkhermitian}
use bench_fft.Verify.Symmetry.Mirror.{volume, IsPositive}
use bench_fft.Verify.Symmetry.Laws.{HasNegation, IsHermitian, mkhermitian-IsHermitian}
use bench_fft.Verify.Trials.{
  Setting, Shift, Dims, shift_round, shift_dim, tf_shift, compared, sign_of,
}
use bench_fft.Verify.Trials.Slots.{
  Table, address, update, Represents, written-Represents, same-Represents,
}
use bench_fft.Verify.Trials.Slots.Operations.{mkreal-Represents}
use bench_fft.Verify.Trials.Slots.Turns.{arol-Represents, aphase_shift-Represents}
use bench_fft.Verify.Trials.Exact.{IsReady, forget, arand-Holds, do_fft-Holds, compared-Holds}

kinds_differ : (k : Kind) → k ≡ Kind.problem_complex → k ≡ Kind.problem_real → ⊥
kinds_differ k a b = ground arith

-- The sizes of a problem, as `problem_parse` computes them.
pub record IsSized (p : Problem) : Type 0 where
  pub rank : p.dims.rank ≡ length p.dims.n
  pub positive : IsPositive p.dims.n
  pub size : p.dims.size ≡ volume p.dims.n
  pub small : volume p.dims.n < 2 ^ 32

module _ {R : Type 0} ⦃r : Real R⦄ ⦃libm : Libm R⦄ where
  -- What the input of a shift test is made to be, if the problem is real.
  abbrev pub IsSuited : Shift → Problem → (ℕ → Complex R) → Type 0
  IsSuited Shift.time_shift p x =
      p.kind ≡ Kind.problem_real → (q : ℕ) → q < p.dims.size → (x q).im ≡ r.zero
  IsSuited Shift.freq_shift p x = p.kind ≡ Kind.problem_real → IsHermitian p.dims.n x

  abbrev pub HasShift :
      Shift → Problem → R → ((ℕ → Complex R) → ℕ → Complex R) → ℕ → (ℕ → Complex R) → ℕ → Type 0
  HasShift Shift.time_shift p sign transform dim x i =
      let n = get_or p.dims.n dim 0 in
      let n_after = rest p.dims.n (suc dim) in
      shifted n n_after sign (transform (λ q. x (rotated n n_after q))) i ≡ transform x i
  HasShift Shift.freq_shift p sign transform dim x i =
      let n = get_or p.dims.n dim 0 in
      let n_after = rest p.dims.n (suc dim) in
      transform (shifted n n_after (r.neg sign) x) (rotated n n_after i) ≡ transform x i

  -- The shift theorem of the transform, in each dimension: rotating the input multiplies the output by
  -- the twiddle factors, and the other way round.
  abbrev pub ObeysShift : Shift → Problem → R → ((ℕ → Complex R) → ℕ → Complex R) → Type 0
  ObeysShift which p sign transform =
      (dim : ℕ) (x : ℕ → Complex R) (i : ℕ)
      → dim < p.dims.rank
      → IsSuited which p x
      → i < p.dims.size
      → HasShift which p sign transform dim x i

module _ {R : Type 0} ⦃r : Real R⦄ ⦃libm : Libm R⦄ (cfg : Setting R) (p : Problem) (tol : R)
    (mine : ℕ → Type 0) (transform : (ℕ → Complex R) → ℕ → Complex R)
    (ready : IsReady cfg p tol mine transform) (sized : IsSized p) (neg : HasNegation R) where
  -- The first input of a round.
  record IsPrepared (which : Shift) (table : Table R) (m : Buffer (Complex R)) : Type 0 where
    input : ℕ → Complex R
    held : Represents p.dims.size cfg.work (update table 0 input) m
    suited : IsSuited which p input

  module _ (table : Table R) (mem : Buffer (Complex R))
      (h : Represents p.dims.size cfg.work table mem) where
    time-IsPrepared :
        IsPrepared Shift.time_shift table
          (if is_real p.kind then mkreal cfg.work.in_a p.dims.size mem else mem)
    time-IsPrepared = elim (Kind-cases p.kind) [
      | inl complex ↦ rw complex (record {
        input = table 0;
        held = same-Represents p.dims.size cfg.work table mem 0 h;
        suited = λ e. absurd (kinds_differ p.kind complex e);
      })
      | inr real ↦ rw real (record {
        input = λ i. record (table 0 i) { im = r.zero };
        held = mkreal-Represents p.dims.size mine cfg.work ready.laid table mem h 0 (omega arith);
        suited = λ e q lt. refl;
      })
    ]

    freq-IsPrepared :
        IsPrepared Shift.freq_shift table
          (if is_real p.kind then mkhermitian p.dims.n cfg.work.in_a mem else mem)
    freq-IsPrepared = elim (Kind-cases p.kind) [
      | inl complex ↦ rw complex (record {
        input = table 0;
        held = same-Represents p.dims.size cfg.work table mem 0 h;
        suited = λ e. absurd (kinds_differ p.kind complex e);
      })
      | inr real ↦
          let made =
            mkhermitian-IsHermitian neg p.dims.n cfg.work.in_a mem sized.positive sized.small in
          rw real (record {
            input = λ q. mkhermitian p.dims.n cfg.work.in_a mem (cfg.work.in_a + q);
            held =
                written-Represents p.dims.size mine cfg.work ready.laid table mem
                  (mkhermitian p.dims.n cfg.work.in_a mem) 0
                  (λ q. mkhermitian p.dims.n cfg.work.in_a mem (cfg.work.in_a + q)) (omega arith) h
                  (record {
                    inside = λ i lt. refl;
                    outside = λ j away. made.outside j (rw sized.size at away);
                  });
            suited = λ e. made.hermitian;
          })
    ]

  -- One round: the prepared input, its other version, and the transforms of both.
  module _ (dim : ℕ) (below : dim < p.dims.rank) where
    abbrev n_cur : ℕ
    n_cur = get_or p.dims.n dim 0

    abbrev n_before : ℕ
    n_before = before p.dims.n dim

    abbrev n_after : ℕ
    n_after = rest p.dims.n (suc dim)

    in_list : dim < length p.dims.n
    in_list = omega (arith, below, sized.rank)

    splits : n_before * n_cur * n_after ≡ p.dims.size
    splits = split-volume p.dims.n dim in_list ∙ sym sized.size

    fits : p.dims.size ≤ 2 ^ 32
    fits = omega (arith, sized.size, sized.small)

    cur_pos : 1 ≤ n_cur
    cur_pos = size-IsPositive p.dims.n dim sized.positive in_list

    after_pos : 1 ≤ n_after
    after_pos = rest-IsPositive p.dims.n (suc dim) sized.positive

    narrow : n_cur ≤ 2 ^ 32
    narrow = omega (arith, size-le-volume p.dims.n dim sized.positive in_list, sized.small)

    module _ (st : R × Session R) where
      abbrev filled : Session R
      filled = arand cfg.drand48 cfg.work.in_a p.dims.size st.1

      abbrev drawn : Table R
      drawn =
          update (λ slot i. st.1.memory.complexes (address cfg.work slot + i)) 0
            (drawn_value cfg.drand48 st.1.drawn)

      drawn-Holds : Represents p.dims.size cfg.work drawn filled.memory.complexes
      drawn-Holds =
          arand-Holds cfg p tol mine transform ready _ 0 st.1 (omega arith)
            (λ slot i lt below'. refl)

    -- The two transforms and the comparison.
    transforms :
        (which : Shift) (x y : ℕ → Complex R) (table : Table R) (e : R) (s : Session R)
        (finish : Buffer (Complex R) → Buffer (Complex R))
        (turned : (ℕ → Complex R) → ℕ → Complex R)
        → Represents p.dims.size cfg.work (update (update table 0 x) 1 y) s.memory.complexes
        → ((t : Table R) (mem : Buffer (Complex R))
            → Represents p.dims.size cfg.work t mem
            → Represents p.dims.size cfg.work (update t 6 (turned (t 4))) (finish mem))
        → ((i : ℕ) → i < p.dims.size → turned (transform y) i ≡ transform x i)
        → e ≡ r.zero
        → Returns
            (λ st. st.0 ≡ r.zero)
            (do_fft cfg.driver p cfg.work.in_a cfg.work.out_a s >>= λ t.
              do_fft cfg.driver p cfg.work.in_b cfg.work.out_b t >>= λ t'.
              compared cfg p tol cfg.work.tmp cfg.work.out_a e
                (with_complexes (finish t'.memory.complexes) t'))
    transforms which x y table e s finish turned h finishes law none_yet =
        Returns-bind
          (do_fft-Holds cfg p tol mine transform ready (update (update table 0 x) 1 y) 0 3 s
            (omega arith) (omega arith) (λ e. absurd (omega arith)) h)
          λ t th.
            Returns-bind
              (do_fft-Holds cfg p tol mine transform ready _ 1 4 t (omega arith) (omega arith)
                (λ e. absurd (omega arith)) th)
              λ t' th'. forget (
                compared-Holds cfg p tol mine transform ready _ 6 3 e
                  (with_complexes (finish t'.memory.complexes) t') (omega arith) (omega arith)
                  (finishes _ t'.memory.complexes th') (λ i lt. law i lt) none_yet)

    shift_round-Returns :
        (which : Shift)
        → ObeysShift which p (sign_of cfg p tol) transform
        → (st : R × Session R) → st.0 ≡ r.zero
        → Returns
            (λ st'. st'.0 ≡ r.zero)
            (shift_round cfg p tol which (sign_of cfg p tol) n_cur n_before n_after st)
    unfolding shift_round
    shift_round-Returns Shift.time_shift obeys st none_yet =
        let ready_input = time-IsPrepared (drawn st) _ (drawn-Holds st) in
        let x = ready_input.input in
        transforms Shift.time_shift x (λ q. x (rotated n_cur n_after q)) (drawn st) st.0 _ _
          (shifted n_cur n_after (sign_of cfg p tol))
          (arol-Represents p.dims.size mine cfg.work ready.laid (update (drawn st) 0 x) _
            ready_input.held n_before n_cur n_after splits fits 1 0 (omega arith) (omega arith)
            (λ e. absurd (omega arith)) cur_pos after_pos narrow)
          (λ t mem h.
            aphase_shift-Represents p.dims.size mine cfg.work ready.laid t mem h n_before n_cur
              n_after splits fits 6 4 (omega arith) (omega arith) (λ e. absurd (omega arith))
              (sign_of cfg p tol))
          (λ i lt. obeys dim x i below ready_input.suited lt) none_yet
    shift_round-Returns Shift.freq_shift obeys st none_yet =
        let ready_input = freq-IsPrepared (drawn st) _ (drawn-Holds st) in
        let x = ready_input.input in
        transforms Shift.freq_shift x (shifted n_cur n_after (r.neg (sign_of cfg p tol)) x)
          (drawn st) st.0 _ _ (λ z q. z (rotated n_cur n_after q))
          (aphase_shift-Represents p.dims.size mine cfg.work ready.laid (update (drawn st) 0 x) _
            ready_input.held n_before n_cur n_after splits fits 1 0 (omega arith) (omega arith)
            (λ e. absurd (omega arith)) (r.neg (sign_of cfg p tol)))
          (λ t mem h.
            arol-Represents p.dims.size mine cfg.work ready.laid t mem h n_before n_cur n_after
              splits fits 6 4 (omega arith) (omega arith) (λ e. absurd (omega arith)) cur_pos
              after_pos narrow)
          (λ i lt. obeys dim x i below ready_input.suited lt) none_yet

  -- The variables of the loop over the dimensions.
  record IsAt (dim : ℕ) (d : Dims R) : Type 0 where
    at_before : d.n_before ≡ before p.dims.n dim
    at_after : d.n_after ≡ rest p.dims.n dim
    none_yet : d.e ≡ r.zero

  shift_dim-IsAt :
      (which : Shift) (rounds dim : ℕ) (d : Dims R)
      → ObeysShift which p (sign_of cfg p tol) transform
      → dim < p.dims.rank
      → IsAt dim d
      → Returns (IsAt (suc dim)) (shift_dim cfg p tol which rounds dim d)
  unfolding shift_dim
  shift_dim-IsAt which rounds dim d obeys below h =
      let listed = in_list dim below in
      let after =
        ap (λ (x : ℕ). x / get_or p.dims.n dim 0) h.at_after
        ∙ next_rest p.dims.n dim sized.positive listed in
      let wider =
        ap (λ (x : ℕ). (x * get_or p.dims.n dim 0) % 2 ^ 32) h.at_before
        ∙ ap (λ (x : ℕ). x % 2 ^ 32) (sym (before-suc p.dims.n dim listed))
        ∙ mod-eq_of_lt
            (omega (arith, before-le-volume p.dims.n (suc dim) sized.positive, sized.small)) in
      Returns-bind
        (Returns-loop (λ _ (st : R × Session R). st.0 ≡ r.zero) rounds
          (λ _.
            shift_round cfg p tol which (sign_of cfg p tol) (get_or p.dims.n dim 0) d.n_before
              (d.n_after / get_or p.dims.n dim 0))
          (d.e, d.session)
          (λ i st lt e. rw (h.at_before, after) (shift_round-Returns dim below which obeys st e))
          h.none_yet)
        λ st e. Returns-ok _ (record { at_before = wider; at_after = after; none_yet = e })

  pub tf_shift-passes :
      (which : Shift) (rounds : ℕ) (s : Session R)
      → ObeysShift which p (sign_of cfg p tol) transform
      → Returns (λ st. st.0 ≡ r.zero) (tf_shift cfg p tol which rounds s)
  unfolding tf_shift rest
  tf_shift-passes which rounds s obeys =
      Returns-bind
        (Returns-loop IsAt p.dims.rank (shift_dim cfg p tol which rounds) _
          (λ dim d below h. shift_dim-IsAt which rounds dim d obeys below h)
          (record {
            at_before = sym (before_zero p.dims.n);
            at_after = sized.size;
            none_yet = refl;
          }))
        λ d h. Returns-ok _ h.none_yet
