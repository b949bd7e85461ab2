-- ===== src/Kernel/Frame/Calculus.antt =====
-- Programs that change neither journal nor snapshots, inside a transaction and outside of one.
use murrmure.Prelude.{
  ◌≤◌, ◌≡◌, refl, ◌∙◌, List, [], ◌∷◌, append-nil, arith, Bool, true, false, if◌then◌else◌,
}
use murrmure.Store.Commit.{commit}
use murrmure.Kernel.World.{
  World, Result, ok, rejected, M, pure, ◌>>=◌, ◌>>◌, run_in_transaction, for_each,
}

-- The journal, the snapshots and the next number are as before, and ids are only taken.
pub record Frame (w w' : World) : Type 0 where
  pub journal : w'.store.journal ≡ w.store.journal
  pub snapshots : w'.store.snapshots ≡ w.store.snapshots
  pub next_seq : w'.store.next_seq ≡ w.store.next_seq
  pub ids : w.ids_taken ≤ w'.ids_taken

-- The same, and the transaction's drafts and snapshots are as before.
pub record TxFrame (w w' : World) : Type 0 where
  pub frame : Frame w w'
  pub drafts : w'.transaction.journal_drafts ≡ w.transaction.journal_drafts
  pub ops : w'.transaction.snapshot_ops ≡ w.transaction.snapshot_ops

pub Frame-refl : (w : World) → Frame w w
Frame-refl w = record { journal = refl; snapshots = refl; next_seq = refl; ids = omega arith }

pub Frame-trans : {u v w : World} → Frame u v → Frame v w → Frame u w
Frame-trans f g = record {
  journal = g.journal ∙ f.journal;
  snapshots = g.snapshots ∙ f.snapshots;
  next_seq = g.next_seq ∙ f.next_seq;
  ids = omega (arith, f.ids, g.ids);
}

pub TxFrame-trans : {u v w : World} → TxFrame u v → TxFrame v w → TxFrame u w
TxFrame-trans f g = record {
  frame = Frame-trans f.frame g.frame;
  drafts = g.drafts ∙ f.drafts;
  ops = g.ops ∙ f.ops;
}

-- A program that keeps the frame from every world, whether it returns or rejects.
abbrev pub Frames : {A : Type 0} → M A → Type 0
Frames m = (w : World) → Frame w (m w).1

-- A program inside a transaction that keeps the frame, and returns.
abbrev pub Quiet : {A : Type 0} → M A → Type 0
Quiet {A} m = (w : World) → (a : A) × ((m w).0 ≡ ok a) × TxFrame w (m w).1

pub Frames-pure : {A : Type 0} (a : A) → Frames (pure a)
Frames-pure a w = Frame-refl w

pub Frames->>= :
    {A B : Type 0} (m : M A) (f : A → M B) → Frames m → ((a : A) → Frames (f a)) → Frames (m >>= f)
Frames->>= {A} {B} m f hm hf w = go (m w).0 (m w).1 (hm w)
  where
    go :
        (r : Result A) (w' : World) → Frame w w' → Frame w (murrmure.Kernel.World.and_then r w' f).1
    go (ok a) w' h = Frame-trans h (hf a w')
    go (rejected message) w' h = h

pub Frames-for_each :
    {A : Type 0} (f : A → M (Unit {0})) (xs : List A)
    → ((x : A) → Frames (f x))
    → Frames (for_each f xs)
unfolding for_each
Frames-for_each f [] h w = Frame-refl w
Frames-for_each f (x ∷ xs) h w =
    Frames->>= (f x) (λ _. for_each f xs) (h x) (λ _. Frames-for_each f xs h) w

pub Frames-if :
    {A : Type 0} (b : Bool) (m n : M A) → Frames m → Frames n → Frames (if b then m else n)
Frames-if true m n hm hn = hm
Frames-if false m n hm hn = hn

pub Quiet-pure : {A : Type 0} (a : A) → Quiet (pure a)
Quiet-pure a w = (a, refl, record { frame = Frame-refl w; drafts = refl; ops = refl })

pub Quiet->>= :
    {A B : Type 0} (m : M A) (f : A → M B) → Quiet m → ((a : A) → Quiet (f a)) → Quiet (m >>= f)
Quiet->>= {A} {B} m f hm hf w = go (m w).0 (m w).1 (hm w).0 (hm w).1 (hm w).2
  where
    go :
        (r : Result A) (w' : World) (a : A)
        → r ≡ ok a
        → TxFrame w w'
        → (b : B) × ((murrmure.Kernel.World.and_then r w' f).0 ≡ ok b)
          × TxFrame w (murrmure.Kernel.World.and_then r w' f).1
    go (ok a') w' a e h =
        let (b, returned, later) = hf a' w' in (b, returned, TxFrame-trans h later)
    go (rejected message) w' a e h = cc

pub Quiet-if : {A : Type 0} (b : Bool) (m n : M A) → Quiet m → Quiet n → Quiet (if b then m else n)
Quiet-if true m n hm hn = hm
Quiet-if false m n hm hn = hn

-- A transaction whose body is quiet keeps the frame, and returns what the body returns.
pub Frames-run_in_transaction :
    {A : Type 0} (body : M A) → Quiet body → Frames (run_in_transaction body)
unfolding run_in_transaction commit
Frames-run_in_transaction {A} body quiet w =
    go (body w0).0 (body w0).1 (quiet w0).0 (quiet w0).1 (quiet w0).2
  where
    w0 : World
    w0 = record w { transaction = murrmure.Store.Transaction.new_transaction }

    go :
        (r : Result A) (w' : World) (a : A)
        → r ≡ ok a
        → TxFrame (record w { transaction = murrmure.Store.Transaction.new_transaction }) w'
        → Frame w (murrmure.Kernel.World.close r w').1
    go (ok a') w' a e h = record {
      journal = rw h.drafts (append-nil w'.store.journal ∙ h.frame.journal);
      snapshots = rw h.ops h.frame.snapshots;
      next_seq = h.frame.next_seq;
      ids = h.frame.ids;
    }
    go (rejected message) w' a e h = cc
