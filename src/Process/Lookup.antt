-- ===== src/Process/Lookup.antt =====
-- pkg/process/proc.go: which process FindPidFromInode answers.
use mathlib.Core.List.{reverse, reverse-append, reverse-cons}
use lambda_runtime_api_daemo.Base.{
  ℕ, ◌≡◌, ap, ◌∙◌, Bool, true, false, none, some, List, [], ◌∷◌, ◌++◌, arith, nat_eq, All,
  All-append, Bytes, bytes_eq,
}
use lambda_runtime_api_daemo.Process.Proc.{ProcFs, first_such, has_socket, find_pid_from_inode}

first_such-hit :
    {A : Type 0} (p : A → Bool) (xs ys : List A) (x : A)
    → p x ≡ true
    → All (λ y. p y ≡ false) xs
    → first_such p ((xs ++ x ∷ []) ++ ys) ≡ some x
unfolding first_such
first_such-hit p [] ys x e h = ground arith
first_such-hit p (y ∷ xs) ys x e h = ground (arith, first_such-hit p xs ys x e h.1)

All-reverse : {A : Type 0} (P : A → Type 0) (xs : List A) → All P xs → All P (reverse xs)
All-reverse P [] h = tt
All-reverse P (x ∷ xs) h =
    rw (reverse-cons x xs) (All-append P (reverse xs) (x ∷ []) (All-reverse P xs h.1) (h.0, tt))

-- FindPidFromInode answers the last candidate that has the socket open: every candidate behind it
-- has not.
find_pid_from_inode-last :
    (fs : ProcFs) (inode : Bytes) (pids later : List ℕ) (pid : ℕ)
    → has_socket fs inode pid ≡ true
    → All (λ q. has_socket fs inode q ≡ false) later
    → find_pid_from_inode fs (pids ++ pid ∷ later) inode ≡ pid
unfolding find_pid_from_inode
find_pid_from_inode-last fs inode pids later pid h none_later =
    ap (λ r. elim r [ none ↦ 0 | some q ↦ q ])
      (ap (first_such (has_socket fs inode))
          (reverse-append pids (pid ∷ later) ∙ ap (λ l. l ++ reverse pids) (reverse-cons pid later))
        ∙ first_such-hit (has_socket fs inode) (reverse later) (reverse pids) pid h
            (All-reverse (λ q. has_socket fs inode q ≡ false) later none_later))
