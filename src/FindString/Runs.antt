-- ===== src/FindString/Runs.antt =====
-- The runs that tail calls link together: 33 of them are enough for every packet.
use honey_potion.Base.{
  ℕ, zero, suc, ◌+◌, ◌*◌, ◌≤◌, ◌<◌, ◌≡◌, ◌≢◌, refl, ap, ◌∙◌, true, false, Bool-cases, inl, inr,
  Option, none, some, leb, ◌==◌, if◌then◌else◌, u32, arith,
}
use honey_potion.Bpf.{HashMap, nat_key}
use honey_potion.Bpf.Array.{ArrayMap}
use honey_potion.Packet.{Packet, Action, xdp_pass, xdp_drop}
use honey_potion.FindString.{
  Row, Word, Progress, scan, State, tail_call, verdict, count_words, map_strings_size, finish,
  resume, start, run_with, run_once, runs, written,
}
use honey_potion.FindString.Scan.{characters, after, IsClosed, scan-partial, scan-total}

leb_le : {a b : ℕ} → leb a b ≡ true → a ≤ b
leb_le h = ground arith

leb_gt : {a b : ℕ} → leb a b ≡ false → b < a
leb_gt h = ground arith

wrap_index :
    (p : Packet) (x n : ℕ) → x ≡ 0 + 2000 → n + 2000 ≤ characters p → u32 (n + x) ≡ n + 2000
wrap_index p x n e within = ground arith

characters-le : (p : Packet) → characters p ≤ 65493
characters-le p = ground arith

module _ (words : ArrayMap Word) (progress : HashMap nat_key Progress) where
  -- What the program does at the end of a scan that found the matches `m`: the verdict and the counts
  -- are those of `m`, and the state of the scan is gone, with no other touched.
  pub record IsEnded (ctx m : ℕ) (s : State words progress) (r : Action × State words progress)
      : Type 0 where
    pub action : r.0 ≡ (if m == 0 then xdp_pass else xdp_drop)
    pub counted : r.1.strings ≡ count_words words progress map_strings_size 0 m s.strings
    pub forgotten : progress.lookup r.1.state_map ctx ≡ none
    pub others : (j : ℕ) → j ≢ ctx → progress.lookup r.1.state_map j ≡ progress.lookup s.state_map j

  -- The end of a run in state `t`, of a chain that began in state `s`.
  abbrev finished : ℕ → ℕ → State words progress → Action × State words progress
  finished ctx n t = (
    if n == 0 then xdp_pass else xdp_drop,
    record {
      strings = count_words words progress map_strings_size 0 n t.strings;
      state_map = progress.delete t.state_map ctx;
    },
  )

  abbrev SameOthers : ℕ → State words progress → State words progress → Type 0
  SameOthers ctx s t =
      (t.strings ≡ s.strings)
      × ((j : ℕ) → j ≢ ctx → progress.lookup t.state_map j ≡ progress.lookup s.state_map j)

  SameOthers-trans :
      {ctx : ℕ} {s t u : State words progress}
      → SameOthers ctx s t
      → SameOthers ctx t u
      → SameOthers ctx s u
  SameOthers-trans a b = (b.0 ∙ a.0, λ j ne. b.1 j ne ∙ a.1 j ne)

  finished-IsEnded :
      (ctx n m : ℕ) (s t : State words progress)
      → n ≡ m
      → SameOthers ctx s t
      → IsEnded ctx m s (finished ctx n t)
  finished-IsEnded ctx n m s t e same = record {
    action = ap (λ x. if x == 0 then xdp_pass else xdp_drop) e;
    counted = rw (e, same.0) refl;
    forgotten = ground (arith, progress.lookup-delete t.state_map ctx ctx);
    others = λ j ne. ground (arith, progress.lookup-delete t.state_map ctx j, same.1 j ne);
  }

  module _ (goto_func : ℕ → Option Row) (rows : ℕ → Row) (k : ℕ)
      (closed : IsClosed goto_func rows k) (p : Packet) (ctx : ℕ) where
    abbrev progress_at : ℕ → Progress
    progress_at n = record {
      payload_index = n;
      ac_state = (after rows p n).0;
      matches = (after rows p n).1;
    }

    store-SameOthers :
        (s : State words progress) (t : Progress)
        → SameOthers ctx s (record s { state_map = progress.store s.state_map ctx t })
    store-SameOthers s t = (refl, λ j ne. ground (arith, progress.lookup-store s.state_map ctx t j))

    lookup-stored :
        (m : progress.Map) (t u : Progress)
        → progress.lookup m ctx ≡ some t
        → progress.lookup (progress.store m ctx u) ctx ≡ some u
    lookup-stored m t u found = ground (arith, progress.lookup-store m ctx u ctx)

    -- A run that reaches the end of the characters.
    run_once-last :
        (s : State words progress) (n : ℕ)
        → progress.lookup s.state_map ctx ≡ some (progress_at n)
        → n ≤ characters p
        → characters p < n + 2000
        → (t : State words progress) × (run_once words progress goto_func p ctx s
            ≡ verdict
                (finished ctx (after rows p (characters p)).1 t).0
                (finished ctx (after rows p (characters p)).1 t).1)
          × SameOthers ctx s t
    unfolding run_once run_with resume finish
    run_once-last s n found within last =
        let r = scan goto_func p n 2000 0 (after rows p n) in
        let e = scan-total goto_func rows k closed p 2000 n 0 n (omega arith) within last in
        (
          written words progress s ctx (progress_at n) n r,
          rw (found, e.0, e.1) refl,
          store-SameOthers s _,
        )

    -- A run that does not.
    run_once-next :
        (s : State words progress) (n : ℕ)
        → progress.lookup s.state_map ctx ≡ some (progress_at n)
        → n + 2000 ≤ characters p
        → (t : State words progress) × (run_once words progress goto_func p ctx s ≡ tail_call t)
          × SameOthers ctx s t
          × (progress.lookup t.state_map ctx ≡ some (progress_at (n + 2000)))
    unfolding run_once run_with resume
    run_once-next s n found within =
        let r = scan goto_func p n 2000 0 (after rows p n) in
        let e = scan-partial goto_func rows k closed p 2000 n 0 n (omega arith) within in
        let index = wrap_index p r.index n e.0 within in
        let ac = e.2 (n + 2000) refl in
        (
          written words progress s ctx (progress_at n) (u32 (n + r.index)) r,
          rw (found, e.1) refl,
          store-SameOthers s _,
          lookup-stored s.state_map (progress_at n) _ found ∙ rw (index, ac) refl,
        )

    resumed-IsEnded :
        (calls n : ℕ) (before s : State words progress)
        → SameOthers ctx before s
        → progress.lookup s.state_map ctx ≡ some (progress_at n)
        → n ≤ characters p
        → characters p < n + 2000 * suc calls
        → IsEnded ctx
            (after rows p (characters p)).1
            before
            (runs words progress calls goto_func p ctx s)
    unfolding runs
    resumed-IsEnded zero n before s same found within enough =
        let e = run_once-last s n found within (omega arith) in
        rw (runs, e.1) (finished-IsEnded ctx _ _ before e.0 refl (SameOthers-trans same e.2))
    resumed-IsEnded (suc calls) n before s same found within enough =
        elim (Bool-cases (leb (n + 2000) (characters p))) [
          | inl more ↦
              let e = run_once-next s n found (leb_le more) in
              rw (runs, e.1)
                (resumed-IsEnded calls (n + 2000) before e.0 (SameOthers-trans same e.2) e.3
                  (leb_le more) (omega arith))
          | inr last ↦
              let e = run_once-last s n found within (leb_gt last) in
              rw (runs, e.1) (finished-IsEnded ctx _ _ before e.0 refl (SameOthers-trans same e.2))
        ]

    module _ (s : State words progress) (absent : progress.lookup s.state_map ctx ≡ none)
        (room : progress.size s.state_map < progress.max_entries) where
      -- The state after the first run has put the initial state of the scan into the map.
      abbrev pub begun : State words progress
      begun = record s {
        state_map =
            progress.update s.state_map ctx
              (record { payload_index = 0; ac_state = 1; matches = 0 });
      }

      begun-SameOthers : SameOthers ctx s begun
      begun-SameOthers = (
        refl,
        λ j ne. ground (
          arith,
          progress.lookup-update s.state_map ctx
              (record { payload_index = 0; ac_state = 1; matches = 0 }) j,
        ),
      )

      begun-progress : progress.lookup begun.state_map ctx ≡ some (progress_at 0)
      unfolding after
      begun-progress = ground (
        arith,
        progress.lookup-update s.state_map ctx
            (record { payload_index = 0; ac_state = 1; matches = 0 }) ctx,
      )

      -- The first run on a packet of at least 2000 characters scans 2000 of them and keeps none of what
      -- it found: it ends in a tail call with the initial state in the map.
      pub run_once-begins :
          2000 ≤ characters p → run_once words progress goto_func p ctx s ≡ tail_call begun
      unfolding run_once run_with start after
      run_once-begins long =
          let e = scan-partial goto_func rows k closed p 2000 0 0 0 refl long in
          rw (absent, e.1) refl

      run_once-short :
          characters p < 2000
          → run_once words progress goto_func p ctx s
            ≡ verdict
                (finished ctx (after rows p (characters p)).1 begun).0
                (finished ctx (after rows p (characters p)).1 begun).1
      unfolding run_once run_with start finish after
      run_once-short short =
          let e = scan-total goto_func rows k closed p 2000 0 0 0 refl (omega arith) short in
          rw (absent, e.0, e.1) refl

      -- 33 tail calls are enough for the whole packet.
      pub runs-IsEnded :
          IsEnded ctx (after rows p (characters p)).1 s (runs words progress 33 goto_func p ctx s)
      unfolding runs
      runs-IsEnded = elim (Bool-cases (leb 2000 (characters p))) [
        | inl long ↦
            rw (runs, run_once-begins (leb_le long))
              (resumed-IsEnded 32 0 s begun begun-SameOthers begun-progress (omega arith)
                (omega (arith, characters-le p)))
        | inr short ↦
            rw (runs, run_once-short (leb_gt short))
              (finished-IsEnded ctx _ _ s begun refl begun-SameOthers)
      ]
