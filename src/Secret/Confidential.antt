-- ===== src/Secret/Confidential.antt =====
-- Asgn4/secret.c: who can hold an open descriptor of the secret. The descriptors are those of the file
-- system: each close and each grant goes over one that is open.
use csc.Prelude.{
  ℕ, ◌+◌, ◌-◌, ◌<◌, ◌≡◌, ◌≢◌, ◌⊎◌, refl, sym, subst, ap, ◌∙◌, Bool, true, false, ◌&&◌, ◌||◌, ◌==◌,
  ltb, List, [], ◌∷◌, ◌++◌, length, arith, Bool-cases, inl, inr, if◌then◌else◌,
}
use csc.Secret.Driver.{
  SecretState, ok, answer, Mode, opened, closed, secret_open, secret_close, secret_ioctl,
  reset_secret_state, secret_transfer, Opcode, dev_gather_s, dev_scatter_s, other_opcode, gather,
  scatter, Answer,
}

pub record Descriptor : Type 0 where
  pub uid : ℕ
  pub mode : Mode

-- The driver, the open descriptors, and the users who have been given the secret since it was last empty:
-- who opened the empty device, and to whom it was granted.
pub record System : Type 0 where
  pub driver : SecretState
  pub open_descriptors : List Descriptor
  pub trusted : List ℕ

abbrev pub is_trusted : ℕ → List ℕ → Bool
is_trusted u [] = false
is_trusted u (v ∷ vs) = (u == v) || is_trusted u vs

abbrev pub AllTrusted : List ℕ → List Descriptor → Type 0
AllTrusted vs [] = Unit {0}
AllTrusted vs (d ∷ ds) = (is_trusted d.uid vs ≡ true) × AllTrusted vs ds

pub data Step (y : System) : System → Type 0 where
  opens :
      (uid : ℕ) (m : Mode)
      → (secret_open m (answer uid) y.driver).0 ≡ ok
      → Step y (record {
        driver = (secret_open m (answer uid) y.driver).1;
        open_descriptors = record { uid = uid; mode = m } ∷ y.open_descriptors;
        trusted = if y.driver.has_owner then y.trusted else (uid ∷ y.trusted);
      })
  closes :
      (before : List Descriptor) (d : Descriptor) (after : List Descriptor)
      → y.open_descriptors ≡ before ++ d ∷ after
      → Step y (record {
        driver = (secret_close y.driver).1;
        open_descriptors = before ++ after;
        trusted = if (secret_close y.driver).1.has_owner then y.trusted else [];
      })
  grants :
      (before : List Descriptor) (d : Descriptor) (after : List Descriptor) (grantee : ℕ)
      → y.open_descriptors ≡ before ++ d ∷ after
      → Step y (record y {
        driver = (secret_ioctl true (answer grantee) y.driver).1;
        trusted = grantee ∷ y.trusted;
      })
  transfers :
      (op : Opcode) (iov_size : ℕ) (copied : Answer (Unit {0})) (source : Answer (ℕ → ℕ))
      → Step y (record y { driver = (secret_transfer op iov_size copied source y.driver).state })

pub data Reach : System → Type 0 where
  start : Reach (record { driver = reset_secret_state; open_descriptors = []; trusted = [] })
  later : {y y' : System} → Reach y → Step y y' → Reach y'

record IsConfidential (y : System) : Type 0 where
  counted : y.driver.open_counter ≡ length y.open_descriptors
  owned : y.open_descriptors ≢ [] → y.driver.has_owner ≡ true
  owner : y.driver.has_owner ≡ true → is_trusted y.driver.secret_owner y.trusted ≡ true
  holders : AllTrusted y.trusted y.open_descriptors

AllTrusted-more :
    (v : ℕ) (vs : List ℕ) (ds : List Descriptor) → AllTrusted vs ds → AllTrusted (v ∷ vs) ds
AllTrusted-more v vs [] h = tt
AllTrusted-more v vs (d ∷ ds) h = (ground arith, AllTrusted-more v vs ds h.1)

AllTrusted-less :
    (vs : List ℕ) (ds : List Descriptor) (d : Descriptor) (es : List Descriptor)
    → AllTrusted vs (ds ++ d ∷ es)
    → AllTrusted vs (ds ++ es)
AllTrusted-less vs [] d es h = h.1
AllTrusted-less vs (x ∷ ds) d es h = (h.0, AllTrusted-less vs ds d es h.1)

open_step :
    (y : System) (uid : ℕ) (m : Mode)
    → IsConfidential y
    → (secret_open m (answer uid) y.driver).0 ≡ ok
    → IsConfidential (record {
      driver = (secret_open m (answer uid) y.driver).1;
      open_descriptors = record { uid = uid; mode = m } ∷ y.open_descriptors;
      trusted = if y.driver.has_owner then y.trusted else (uid ∷ y.trusted);
    })
unfolding secret_open opened
open_step y uid m c may = elim (Bool-cases y.driver.has_owner) [
  | inl owned ↦
      let mine = c.owner owned in
      record {
        counted = let n = c.counted in ground arith;
        owned = λ _. ground arith;
        owner = λ _. ground arith;
        holders =
            subst (λ vs. AllTrusted vs (record { uid = uid; mode = m } ∷ y.open_descriptors))
              (sym (kept_list owned)) (ground arith, c.holders);
      }
  | inr empty ↦ record {
    counted = let n = c.counted in ground arith;
    owned = λ _. ground arith;
    owner = λ _. ground arith;
    holders =
        subst (λ vs. AllTrusted vs (record { uid = uid; mode = m } ∷ y.open_descriptors))
          (sym (new_list empty))
          (ground arith, AllTrusted-more uid y.trusted y.open_descriptors c.holders);
  }
]
  where
    kept_list :
        y.driver.has_owner ≡ true
        → (if y.driver.has_owner then y.trusted else (uid ∷ y.trusted)) ≡ y.trusted
    kept_list e = rw e refl

    new_list :
        y.driver.has_owner ≡ false
        → (if y.driver.has_owner then y.trusted else (uid ∷ y.trusted)) ≡ uid ∷ y.trusted
    new_list e = rw e refl

-- What a close does, by whether it is the last one of a device that has been read.
close_cases :
    (s : SecretState)
    → 0 < s.open_counter
    → ((s.open_counter ≡ 1) × ((secret_close s).1 ≡ reset_secret_state))
      ⊎ ((secret_close s).1 ≡ record s { open_counter = s.open_counter - 1 })
unfolding secret_close closed
close_cases s open_now =
    let now : ltb 0 s.open_counter ≡ true = ground arith in
    elim (Bool-cases ((s.open_counter - 1 == 0) && s.read_fd_opened)) [
      | inl last ↦ inl (ground arith, rw (now, last) refl)
      | inr other ↦ inr (rw (now, other) refl)
    ]

nothing_left : (ds : List Descriptor) → length ds ≡ 0 → ds ≡ []
nothing_left [] e = refl
nothing_left (d ∷ ds) e = absurd (omega (arith, e))

length-without :
    (ds : List Descriptor) (d : Descriptor) (es : List Descriptor)
    → length (ds ++ d ∷ es) ≡ length (ds ++ es) + 1
length-without [] d es = omega arith
length-without (x ∷ ds) d es = omega (arith, length-without ds d es)

close_step :
    (y : System) (before : List Descriptor) (d : Descriptor) (after : List Descriptor)
    → IsConfidential y
    → y.open_descriptors ≡ before ++ d ∷ after
    → IsConfidential (record {
      driver = (secret_close y.driver).1;
      open_descriptors = before ++ after;
      trusted = if (secret_close y.driver).1.has_owner then y.trusted else [];
    })
unfolding reset_secret_state
close_step y before d after c e =
    let n = c.counted in
    let long : length y.open_descriptors ≡ length (before ++ after) + 1 =
      ap length e ∙ length-without before d after in
    let owned : y.driver.has_owner ≡ true =
      c.owned (λ h. some_open (length (before ++ after)) (ap length h) long) in
    let holders =
      AllTrusted-less y.trusted before d after (subst (AllTrusted y.trusted) e c.holders) in
    elim (close_cases y.driver (omega (arith, n, long))) [
      | inl (one, r) ↦
          let gone : before ++ after ≡ [] =
            nothing_left (before ++ after) (omega (arith, n, long, one)) in
          rw (r, gone)
            (record { counted = refl; owned = λ h. absurd (h refl); owner = λ h. cc; holders = tt })
      | inr r ↦
          rw (r, owned)
            (record {
              counted = omega (arith, n, long);
              owned = λ _. refl;
              owner = λ _. c.owner owned;
              holders = holders;
            })
    ]
  where
    some_open : (k : ℕ) → length y.open_descriptors ≡ 0 → length y.open_descriptors ≡ k + 1 → ⊥
    some_open k a b = omega (arith, a, b)

grant_step :
    (y : System) (before : List Descriptor) (d : Descriptor) (after : List Descriptor) (grantee : ℕ)
    → IsConfidential y
    → IsConfidential (record y {
      driver = (secret_ioctl true (answer grantee) y.driver).1;
      trusted = grantee ∷ y.trusted;
    })
unfolding secret_ioctl
grant_step y before d after grantee c = record {
  counted = c.counted;
  owned = c.owned;
  owner = λ _. ground arith;
  holders = AllTrusted-more grantee y.trusted y.open_descriptors c.holders;
}

-- A transfer leaves the owner and the count.
transfer_keeps :
    (op : Opcode) (n : ℕ) (copied : Answer (Unit {0})) (source : Answer (ℕ → ℕ)) (s : SecretState)
    → let s' = (secret_transfer op n copied source s).state in
      (s'.open_counter ≡ s.open_counter)
      × (s'.has_owner ≡ s.has_owner)
      × (s'.secret_owner ≡ s.secret_owner)
unfolding secret_transfer gather scatter
transfer_keeps other_opcode n copied source s = (refl, refl, refl)
transfer_keeps dev_gather_s n copied source s = (ground arith, ground arith, ground arith)
transfer_keeps dev_scatter_s n copied source s = (ground arith, ground arith, ground arith)

transfer_step :
    (y : System) (op : Opcode) (n : ℕ) (copied : Answer (Unit {0})) (source : Answer (ℕ → ℕ))
    → IsConfidential y
    → IsConfidential (record y { driver = (secret_transfer op n copied source y.driver).state })
transfer_step y op n copied source c =
    let (same_count, same_has, same_owner) = transfer_keeps op n copied source y.driver in
    record {
      counted = same_count ∙ c.counted;
      owned = λ h. same_has ∙ c.owned h;
      owner = λ h. ap (λ u. is_trusted u y.trusted) same_owner ∙ c.owner (sym same_has ∙ h);
      holders = c.holders;
    }

Reach-IsConfidential : {y : System} → Reach y → IsConfidential y
unfolding reset_secret_state
Reach-IsConfidential start = record {
  counted = refl;
  owned = λ h. absurd (h refl);
  owner = λ h. cc;
  holders = tt;
}
Reach-IsConfidential (later {y = y} r (opens uid m may)) =
    open_step y uid m (Reach-IsConfidential r) may
Reach-IsConfidential (later {y = y} r (closes before d after e)) =
    close_step y before d after (Reach-IsConfidential r) e
Reach-IsConfidential (later {y = y} r (grants before d after grantee e)) =
    grant_step y before d after grantee (Reach-IsConfidential r)
Reach-IsConfidential (later {y = y} r (transfers op n copied source)) =
    transfer_step y op n copied source (Reach-IsConfidential r)

-- In every state that opens, closes, grants and transfers reach: each open descriptor belongs to a user
-- who has been given the secret since the device was last empty, that is, who opened the empty device
-- or to whom it was granted; so does the device itself, if it has an owner; a device with an open
-- descriptor has one; and the driver's count is the number of open descriptors.
pub holders_trusted :
    (y : System)
    → Reach y
    → AllTrusted y.trusted y.open_descriptors
      × (y.driver.has_owner ≡ true → is_trusted y.driver.secret_owner y.trusted ≡ true)
      × (y.open_descriptors ≢ [] → y.driver.has_owner ≡ true)
      × (y.driver.open_counter ≡ length y.open_descriptors)
holders_trusted y r = let c = Reach-IsConfidential r in (c.holders, c.owner, c.owned, c.counted)
