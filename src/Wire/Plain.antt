-- ===== src/Wire/Plain.antt =====
-- Sending and receiving a token makes plain calls alone.
use kerberos.Base.{
  if◌then◌else◌, length, ℕ, zero, suc, refl, ◌∙◌, [], ◌∷◌, inl, inr, arith, ◌==◌, Bool-cases,
}
use kerberos.World.{
  read_error, got, Keeps-if, ◌>>=◌, printf, ◌>>◌, Bytes, Status, failure, write_error, wrote, Event,
  Trace, Prog, pure, Os, Ignores, IgnoresInput, IgnoresInput-of_Ignores, Keeps, Keeps-bind,
  Keeps-from,
}
use kerberos.Wire.{
  size_sub, to_int, minus_one, store_at, load_at, read_loop, read_all, write_loop, write_all,
  send_token, recv_token,
}

module _ {C : Type 0} (f : Trace → C) (J : IgnoresInput f) (os : Os) where
  store_at-Keeps :
      (offset : ℕ) (bytes buffer : Bytes) (t : Trace) → Keeps f t (store_at offset bytes buffer t)
  unfolding store_at
  store_at-Keeps offset bytes buffer t = ground arith

  read_loop-Keeps :
      (fuel fd : ℕ) (buffer : Bytes) (offset len : ℕ) (t : Trace)
      → Keeps f t (read_loop os fuel fd buffer offset len t)
  unfolding read_loop store_at
  read_loop-Keeps zero fd buffer offset len t = tt
  read_loop-Keeps (suc fuel) fd buffer offset len t =
      Keeps-if f t t (len == 0) _ _ refl
        (elim (os.read t fd len)
          as (λ r. Keeps f t (
            (elim r as (λ _. Prog (Status × Bytes)) [
              | read_error ↦ printf "read_all" [] >> pure (failure, buffer)
              | got bytes ↦ store_at offset bytes buffer >>= λ buffer'.
                  if to_int (length bytes) == minus_one
                  then printf "read_all" [] >> pure (failure, buffer')
                  else read_loop os fuel fd buffer' (to_int (length bytes))
                      (size_sub len (to_int (length bytes)))
            ])
              (Event.read fd len r ∷ t))) [
                | read_error ↦ J.printf "read_all" [] _ ∙ J.read fd len read_error t
                | got bytes ↦
                    let t' = Event.read fd len (got bytes) ∷ t in
                    Keeps-bind f t (store_at offset bytes buffer t') _
                      (Keeps-from f t t' _ (J.read fd len (got bytes) t)
                        (store_at-Keeps offset bytes buffer t'))
                      λ buffer' u h.
                        Keeps-if f t u (to_int (length bytes) == minus_one) _ _
                          (J.printf "read_all" [] u ∙ h)
                          (Keeps-from f t u _ h (read_loop-Keeps fuel fd buffer' _ _ u))
              ])

  pub recv_token-KeepsInput : (fuel fd : ℕ) (t : Trace) → Keeps f t (recv_token os fuel fd t)
  unfolding recv_token read_all
  recv_token-KeepsInput fuel fd t = grind (arith, read_loop-Keeps fuel, J.malloc, J.printf)

module _ {C : Type 0} (f : Trace → C) (I : Ignores f) (os : Os) where
  load_at-Keeps :
      (offset count : ℕ) (buffer : Bytes) (t : Trace) → Keeps f t (load_at offset count buffer t)
  unfolding load_at
  load_at-Keeps offset count buffer t = ground arith

  write_loop-Keeps :
      (fuel fd : ℕ) (buffer : Bytes) (offset len : ℕ) (t : Trace)
      → Keeps f t (write_loop os fuel fd buffer offset len t)
  unfolding write_loop load_at
  write_loop-Keeps zero fd buffer offset len t = tt
  write_loop-Keeps (suc fuel) fd buffer offset len t = elim (Bool-cases (len == 0)) [
    | inl e ↦ rw e refl
    | inr e ↦ rw e (
        Keeps-bind f t (load_at offset len buffer t) _ (load_at-Keeps offset len buffer t)
          λ bytes u h.
            elim (os.write u fd bytes)
              as (λ r. Keeps f t (
                (elim r as (λ _. Prog Status) [
                  | write_error ↦ printf "write_all" [] >> pure failure
                  | wrote count ↦
                      if to_int count == minus_one
                      then printf "write_all" [] >> pure failure
                      else write_loop os fuel fd buffer (to_int count) (size_sub len (to_int count))
                ])
                  (Event.write fd bytes r ∷ u))) [
                    | write_error ↦ I.printf "write_all" [] _ ∙ I.write fd bytes write_error u ∙ h
                    | wrote n ↦
                        let u' = Event.write fd bytes (wrote n) ∷ u in
                        Keeps-if f t u' (to_int n == minus_one) _ _
                          (I.printf "write_all" [] u' ∙ I.write fd bytes (wrote n) u ∙ h)
                          (Keeps-from f t u' _ (I.write fd bytes (wrote n) u ∙ h) (
                            write_loop-Keeps fuel fd buffer (to_int n) (size_sub len (to_int n))
                              u'))
                  ])
  ]

  pub send_token-Keeps :
      (fuel fd : ℕ) (token : Bytes) (t : Trace) → Keeps f t (send_token os fuel fd token t)
  unfolding send_token write_all
  send_token-Keeps fuel fd token t = grind (arith, write_loop-Keeps fuel fd, I.printf)

  pub recv_token-Keeps : (fuel fd : ℕ) (t : Trace) → Keeps f t (recv_token os fuel fd t)
  recv_token-Keeps = recv_token-KeepsInput f (IgnoresInput-of_Ignores f I) os
