-- ===== src/Kern/Env/Ids.antt =====
-- Environment ids: how they name a slot of `envs`, and who may use one.
use demo2s.Base.{
  ℕ, ◌+◌, ◌*◌, ◌%◌, ◌^◌, ◌<◌, ◌≡◌, ap, ◌∙◌, ◌||◌, ==_of_ne, ◌≢◌, ◌⊎◌, Bool, true, false, inl, inr,
  some, arith, ◌==◌, u32, if◌then◌else◌, done, ok, err, bad_env, not, ◌&&◌, Bool-cases, bit_or,
}
use demo2s.Base.Bits.{bit_or_field}
use demo2s.Kern.State.{Kernel}
use demo2s.Kern.Env.{envid2env, mkenvid, is_free}

-- The caller may handle the environment: it is itself or its parent.
abbrev pub IsAllowed : Kernel → ℕ → ℕ → Type 0
IsAllowed k c e = ((k.envs e).parent_id ≡ (k.envs c).id) ⊎ ((k.envs e).id ≡ (k.envs c).id)

-- The answer for a non-zero id as one test, and the state left alone.
envid2env_value :
    (envid c : ℕ) (check : Bool) (k : Kernel)
    → envid ≢ 0
    → k.curenv ≡ some c
    → envid2env envid check k
      ≡ done
          (if is_free (k.envs (envid % 1024)).status
              || not ((k.envs (envid % 1024)).id == envid)
              || check
                && not ((k.envs (envid % 1024)).parent_id == (k.envs c).id)
                && not ((k.envs (envid % 1024)).id == (k.envs c).id)
            then err bad_env
            else ok (some (envid % 1024)))
          k
unfolding envid2env
envid2env_value envid c true k ne cur =
    rw (==_of_ne envid 0 ne)
      (elim (Bool-cases
        (is_free (k.envs (envid % 1024)).status || not ((k.envs (envid % 1024)).id == envid))) [
          | inl e ↦ rw e
          | inr e ↦ rw (e, cur)
        ])
envid2env_value envid c false k ne cur = rw (==_of_ne envid 0 ne) (ground arith)

-- A non-zero id that `envid2env` accepts names the slot in its low ten bits, that environment is
-- not free and has exactly this id, nothing is changed, and with `checkperm` the current
-- environment is it or its parent.
pub envid2env_sound :
    (envid c e : ℕ) (check : Bool) (k k' : Kernel)
    → envid ≢ 0
    → k.curenv ≡ some c
    → envid2env envid check k ≡ done (ok (some e)) k'
    → (k' ≡ k)
      × (e ≡ envid % 1024)
      × (is_free (k.envs e).status ≡ false)
      × ((k.envs e).id ≡ envid)
      × ((check ≡ false) ⊎ IsAllowed k c e)
unfolding envid2env
envid2env_sound envid c e true k k' ne cur h = ground (arith, envid2env_value envid c true k ne cur)
envid2env_sound envid c e false k k' ne cur h =
    ground (arith, envid2env_value envid c false k ne cur)

-- The id of an environment that is not free finds it, without the check and, for itself and its
-- parent, with it.
pub envid2env_complete :
    (c e : ℕ) (check : Bool) (k : Kernel)
    → e < 1024
    → (k.envs e).id ≢ 0
    → (k.envs e).id % 1024 ≡ e
    → is_free (k.envs e).status ≡ false
    → k.curenv ≡ some c
    → (check ≡ false) ⊎ IsAllowed k c e
    → envid2env (k.envs e).id check k ≡ done (ok (some e)) k
unfolding envid2env
envid2env_complete c e true k lt ne slot live cur may =
    rw (envid2env_value (k.envs e).id c true k ne cur) (ground arith)
envid2env_complete c e false k lt ne slot live cur may =
    rw (envid2env_value (k.envs e).id c false k ne cur) (ground arith)

-- `mkenvid` puts the slot in the low ten bits and the count in those above the eleventh.
pub mkenvid_value :
    (e : ℕ) (k : Kernel)
    → e < 1024
    → mkenvid e k
      ≡ done
          ((k.next_env_id + 1) % 2 ^ 21 * 2 ^ 11 + e)
          (record k { next_env_id = u32 (k.next_env_id + 1) })
unfolding mkenvid
mkenvid_value e k lt = rw value
  where
    n : ℕ
    n = u32 (k.next_env_id + 1)

    shift : bit_or (u32 (n * 2 ^ 11)) e ≡ bit_or ((k.next_env_id + 1) % 2 ^ 21 * 2 ^ 11) e
    shift = ap (λ t. bit_or t e) (omega arith)

    value : bit_or (u32 (n * 2 ^ 11)) e ≡ (k.next_env_id + 1) % 2 ^ 21 * 2 ^ 11 + e
    value = shift ∙ bit_or_field 11 ((k.next_env_id + 1) % 2 ^ 21) e (omega arith)
