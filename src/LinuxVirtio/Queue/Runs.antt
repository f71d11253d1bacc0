-- ===== src/LinuxVirtio/Queue/Runs.antt =====
-- A driver and a device that use a virtqueue together, in any order.
use field_os.Prelude.{
  ℕ, ◌+◌, ◌%◌, ◌^◌, ◌<◌, ◌≡◌, inl, inr, refl, sym, ap, ◌∙◌, subst, arith, true, List, [], ◌∷◌, ◌++◌,
  some, occurs,
}
use field_os.Prelude.Outcome.{returned}
use field_os.Virtq.{UsedElem}
use field_os.Virtq.System.{complete}
use field_os.Virtq.Device.{use_chain-Holds}
use field_os.LinuxVirtio.Queue.{Scatterlist, ShimVirtqueue, vq_add, virtqueue_get_buf}
use field_os.LinuxVirtio.Queue.Buffers.{tokens_of, Agrees}
use field_os.LinuxVirtio.Queue.Add.{vq_add_lem}
use field_os.LinuxVirtio.Queue.Get.{get_buf-none, get_buf-Got}

-- A virtqueue, and the heads that the device has read and not yet used.
pub record State : Type 0 where
  pub vq : ShimVirtqueue
  pub heads : List ℕ

-- A run from `s`, with the tokens that the driver added and those that it got back, newest first.
-- The device reads a head from the slot that an addition filled, and uses any chain that it read.
pub data Run (s : State) : List ℕ → List ℕ → State → Type 0 where
  here : Run s [] [] s
  add :
      {given got : List ℕ} {vq vq' : ShimVirtqueue} {heads : List ℕ} (sg : List Scatterlist)
      (token sg_flags : ℕ)
      → Run s given got (record { vq = vq; heads = heads })
      → sg_flags < 2 ^ 16
      → vq_add vq sg token sg_flags ≡ returned (true, vq')
      → Run s (token ∷ given) got (record {
        vq = vq';
        heads = vq'.queue.avail_ring (vq.queue.avail_idx % vq.queue.size) ∷ heads;
      })
  use_chain :
      {given got : List ℕ} {vq : ShimVirtqueue} {heads heads' : List ℕ} (before after : List ℕ)
      (elem : UsedElem)
      → Run s given got (record { vq = vq; heads = heads })
      → heads ≡ before ++ (elem.id ∷ after)
      → heads' ≡ before ++ after
      → Run s given got
          (record { vq = record vq { queue = complete vq.queue elem }; heads = heads' })
  get :
      {given got : List ℕ} {vq vq' : ShimVirtqueue} {heads : List ℕ} (token len : ℕ)
      → Run s given got (record { vq = vq; heads = heads })
      → virtqueue_get_buf vq.size vq ≡ some (returned (some (token, len), vq'))
      → Run s given (token ∷ got) (record { vq = vq'; heads = heads })

-- What a run leaves: the tokens added, and those that were there, are the ones got back and the ones
-- that are there now, each as often.
pub record Conserves (given got : List ℕ) (pending used : List ℕ) (t : State) : Type 0 where
  pub pending' : List ℕ
  pub used' : List ℕ
  pub agrees : Agrees t.vq t.heads pending' used'
  pub count :
      (x : ℕ)
      → occurs x given + (occurs x pending + occurs x used)
        ≡ occurs x got + (occurs x pending' + occurs x used')

occurs-tokens_of :
    (x : ℕ) (tokens : ℕ → ℕ) (bs cs : List (List ℕ))
    → occurs x (tokens_of tokens (bs ++ cs))
      ≡ occurs x (tokens_of tokens bs) + occurs x (tokens_of tokens cs)
occurs-tokens_of x tokens [] cs = omega arith
occurs-tokens_of x tokens (b ∷ bs) cs = omega (arith, occurs-tokens_of x tokens bs cs)

module _ (pending used : List ℕ) where
  added-Conserves :
      (given got : List ℕ) (vq vq' : ShimVirtqueue) (heads : List ℕ) (sg : List Scatterlist)
      (token sg_flags : ℕ)
      → Conserves given got pending used (record { vq = vq; heads = heads })
      → sg_flags < 2 ^ 16
      → vq_add vq sg token sg_flags ≡ returned (true, vq')
      → Conserves (token ∷ given) got pending used (record {
        vq = vq';
        heads = vq'.queue.avail_ring (vq.queue.avail_idx % vq.queue.size) ∷ heads;
      })
  added-Conserves given got vq vq' heads sg token sg_flags c word e =
      elim (vq_add_lem vq sg token sg_flags heads c.pending' c.used' c.agrees word) [
        | inl (e', why) ↦ cc
        | inr (pos, few, room, vq'', e', more) ↦
            let same : vq'' ≡ vq' = cc in
            subst
              (λ v. Conserves (token ∷ given) got pending used (record {
                vq = v;
                heads = v.queue.avail_ring (vq.queue.avail_idx % vq.queue.size) ∷ heads;
              }))
              same
              (record {
                pending' = token ∷ c.pending';
                used' = c.used';
                agrees =
                    subst (λ h. Agrees vq'' (h ∷ heads) (token ∷ c.pending') c.used')
                      (sym more.published) more.agrees;
                count = λ x. omega (arith, c.count x);
              })
      ]

  used-Conserves :
      (given got : List ℕ) (vq : ShimVirtqueue) (heads heads' before after : List ℕ)
      (elem : UsedElem)
      → Conserves given got pending used (record { vq = vq; heads = heads })
      → heads ≡ before ++ (elem.id ∷ after)
      → heads' ≡ before ++ after
      → Conserves given got pending used
          (record { vq = record vq { queue = complete vq.queue elem }; heads = heads' })
  used-Conserves given got vq heads heads' before after elem c e e' =
      let a = c.agrees in
      let (bs, x, cs, split, holds) =
        use_chain-Holds vq.queue heads heads' before after a.free a.device a.done elem e e'
          a.holds in
      record {
        pending' = tokens_of vq.tokens (bs ++ cs);
        used' = tokens_of vq.tokens (a.done ++ (x ∷ []));
        agrees = record {
          free = a.free;
          device = bs ++ cs;
          done = a.done ++ (x ∷ []);
          holds = holds;
          sized = unfold complete in a.sized;
          at_device = refl;
          at_driver = refl;
        };
        count = λ y.
            let was : occurs y c.pending' ≡ occurs y (tokens_of vq.tokens (bs ++ (x ∷ cs))) =
              ap (occurs y) (sym a.at_device ∙ ap (tokens_of vq.tokens) split) in
            let was_used : occurs y c.used' ≡ occurs y (tokens_of vq.tokens a.done) =
              ap (occurs y) (sym a.at_driver) in
            omega (
              arith,
              c.count y,
              was,
              was_used,
              occurs-tokens_of y vq.tokens bs cs,
              occurs-tokens_of y vq.tokens bs (x ∷ cs),
              occurs-tokens_of y vq.tokens a.done (x ∷ []),
            );
      }

  got-Conserves :
      (given got : List ℕ) (vq vq' : ShimVirtqueue) (heads : List ℕ) (token len : ℕ)
      (pending' used' : List ℕ)
      → Agrees vq heads pending' used'
      → ((x : ℕ)
          → occurs x given + (occurs x pending + occurs x used)
            ≡ occurs x got + (occurs x pending' + occurs x used'))
      → virtqueue_get_buf vq.size vq ≡ some (returned (some (token, len), vq'))
      → Conserves given (token ∷ got) pending used (record { vq = vq'; heads = heads })
  got-Conserves given got vq vq' heads token len pending' [] agrees count e =
      let e' = get_buf-none vq heads pending' vq.size agrees in cc
  got-Conserves given got vq vq' heads token len pending' (t ∷ used') agrees count e =
      let g = get_buf-Got vq t heads pending' used' agrees in
      let e' = g.result in
      let token' : t ≡ token = cc in
      let same : g.vq' ≡ vq' = cc in
      record {
        pending' = pending';
        used' = used';
        agrees = subst (λ v. Agrees v heads pending' used') same g.agrees;
        count = λ x. rw (sym token') (omega (arith, count x));
      }

  -- However the driver adds buffers and gets them back, and in whatever order the device uses what
  -- it was given, the queue stays sound, and every token was added, or in the queue at the start, as
  -- often as it was got back or is in the queue at the end: no buffer is lost, and none comes back
  -- twice.
  pub Run-Conserves :
      {s t : State} {given got : List ℕ}
      → Run s given got t
      → Agrees s.vq s.heads pending used
      → Conserves given got pending used t
  Run-Conserves here agrees = record {
    pending' = pending;
    used' = used;
    agrees = agrees;
    count = λ x. refl;
  }
  Run-Conserves (add {given} {got} {vq} {vq'} {heads} sg token sg_flags r word e) agrees =
      added-Conserves given got vq vq' heads sg token sg_flags (Run-Conserves r agrees) word e
  Run-Conserves (use_chain {given} {got} {vq} {heads} {heads'} before after elem r e e') agrees =
      used-Conserves given got vq heads heads' before after elem (Run-Conserves r agrees) e e'
  Run-Conserves (get {given} {got} {vq} {vq'} {heads} token len r e) agrees =
      let c = Run-Conserves r agrees in
      got-Conserves given got vq vq' heads token len c.pending' c.used' c.agrees c.count e
