-- ===== src/Client/Logger/Laws.antt =====
-- What of the logged lines is in the file, and what is in the buffer.
use mathlib.Core.List.{append_assoc, append-nil}
use etcd_cloud_benchmarking.Prelude.{
  ℕ, suc, zero, ◌-◌, ◌≤◌, ◌≡◌, refl, sym, ap, ◌∙◌, inl, inr, Bool-cases, true, false, List, [], ◌∷◌,
  ◌++◌, length, length-append, take, drop, leb, arith, subst, leb→le,
}
use etcd_cloud_benchmarking.Prelude.Text.{Text}
use etcd_cloud_benchmarking.Client.Logger.{
  Outputs, Logger, Result, done, failed, is_empty, write_file, flush, write_rest, after_flush,
  write, printf, log_all, close_flushed, close, exit,
}

-- no write fails
pub record IsSound (o : Outputs) : Type 0 where
  pub stdouts_ok : (n : ℕ) → o.stdout_ok n ≡ true
  pub writes_ok : (n : ℕ) → o.write_ok n ≡ true

-- the writer has met no error, and its buffer holds what it can
pub record IsHealthy (l : Logger) : Type 0 where
  pub unbroken : l.broken ≡ false
  pub fits : length l.buffer ≤ l.size

abbrev pub content : Logger → Text
content l = l.file ++ l.buffer

abbrev pub concat : List Text → Text
concat [] = []
concat (p ∷ ps) = p ++ concat ps

-- a text was added to what is in the file and in the buffer
record Adds (l : Logger) (p : Text) (l' : Logger) : Type 0 where
  healthy : IsHealthy l'
  adds : content l' ≡ content l ++ p

take-append-drop : (n : ℕ) (xs : Text) → take n xs ++ drop n xs ≡ xs
take-append-drop zero xs = refl
take-append-drop (suc n) [] = refl
take-append-drop (suc n) (x ∷ xs) = ap (λ ys. x ∷ ys) (take-append-drop n xs)

empty_lem : (xs : Text) → is_empty xs ≡ true → xs ≡ []
empty_lem [] h = refl
empty_lem (x ∷ xs) h = cc

module _ (o : Outputs) (ok : IsSound o) where
  write_file-Adds :
      (p : Text) (l : Logger)
      → IsHealthy l
      → l.buffer ≡ []
      → ((write_file o p l).0 ≡ done) × Adds l p (write_file o p l).1
  unfolding write_file
  write_file-Adds p l h e = rw (ok.writes_ok l.writes) (
    refl,
    record {
      healthy = record { unbroken = h.unbroken; fits = h.fits };
      adds =
          ap (λ b. (l.file ++ p) ++ b) e
          ∙ append-nil (l.file ++ p)
          ∙ ap (λ f. f ++ p) (sym (append-nil l.file) ∙ ap (λ b. l.file ++ b) (sym e));
    },
  )

  flush-empties :
      (l : Logger)
      → l.broken ≡ false
      → ((flush o l).0 ≡ done)
        × ((flush o l).1.buffer ≡ [])
        × ((flush o l).1.broken ≡ false)
        × ((flush o l).1.size ≡ l.size)
        × ((flush o l).1.file ≡ content l)
  unfolding flush
  flush-empties l h = elim (Bool-cases (is_empty l.buffer)) [
    | inl e ↦
        let none_left = empty_lem l.buffer e in
        rw (h, e)
          (refl, none_left, refl, refl, sym (ap (λ b. l.file ++ b) none_left ∙ append-nil l.file))
    | inr e ↦ rw (h, e, ok.writes_ok l.writes) (refl, refl, refl, refl, refl)
  ]

  write_rest-Adds :
      (p : Text) (l : Logger)
      → l.broken ≡ false
      → l.buffer ≡ []
      → ((write_rest o p l).0 ≡ done) × Adds l p (write_rest o p l).1
  unfolding write_rest
  write_rest-Adds p l h e = elim (Bool-cases (leb (length p) l.size)) [
    | inl b ↦ rw b (
      refl,
      record {
        healthy = record { unbroken = h; fits = leb→le _ _ b };
        adds = ap (λ f. f ++ p) (sym (append-nil l.file) ∙ ap (λ x. l.file ++ x) (sym e));
      },
    )
    | inr b ↦
        rw b (write_file-Adds p l (record { unbroken = h; fits = omega (arith, ap length e) }) e)
  ]

  -- the filled buffer is flushed, and the rest follows
  after_flush-Adds :
      (p q : Text) (l l₁ : Logger)
      → l₁.broken ≡ false
      → content l₁ ≡ content l ++ p
      → ((after_flush o q (flush o l₁)).0 ≡ done) × Adds l (p ++ q) (after_flush o q (flush o l₁)).1
  unfolding after_flush
  after_flush-Adds p q l l₁ h e = go (flush o l₁) (flush-empties l₁ h)
    where
      go :
          (r : Result × Logger)
          → (r.0 ≡ done)
            × (r.1.buffer ≡ [])
            × (r.1.broken ≡ false)
            × (r.1.size ≡ l₁.size)
            × (r.1.file ≡ content l₁)
          → ((after_flush o q r).0 ≡ done) × Adds l (p ++ q) (after_flush o q r).1
      go (failed, l₂) k = cc (k.0)
      go (done, l₂) (z, b, u, s, f) =
          let (d, a) = write_rest-Adds q l₂ u b in
          (
            d,
            record {
              healthy = a.healthy;
              adds =
                  a.adds
                  ∙ ap (λ x. (l₂.file ++ x) ++ q) b
                  ∙ ap (λ x. x ++ q) (append-nil l₂.file ∙ f ∙ e)
                  ∙ append_assoc (content l) p q;
            },
          )

  write-Adds :
      (p : Text) (l : Logger) → IsHealthy l → ((write o p l).0 ≡ done) × Adds l p (write o p l).1
  unfolding write
  write-Adds p l h =
      let room = l.size - length l.buffer in
      elim (Bool-cases (leb (length p) room)) [
        | inl b ↦
            simp (h.unbroken, b)
              (
                refl,
                record {
                  healthy = record {
                    unbroken = refl;
                    fits = omega (arith, length-append l.buffer p, leb→le _ _ b, h.fits);
                  };
                  adds = sym (append_assoc l.file l.buffer p);
                },
              )
        | inr b ↦ elim (Bool-cases (is_empty l.buffer)) [
          | inl e ↦ simp (h.unbroken, b, e) (write_file-Adds p l h (empty_lem l.buffer e))
          | inr e ↦
              let filled : Logger = record l { buffer = l.buffer ++ take room p; broken = false } in
              let (d, a) =
                after_flush-Adds (take room p) (drop room p) l filled refl
                  (sym (append_assoc l.file l.buffer (take room p))) in
              simp (h.unbroken, b, e)
                (
                  d,
                  subst (λ t. Adds l t (after_flush o (drop room p) (flush o filled)).1)
                      (take-append-drop room p) a,
                )
        ]
      ]

  printf-Adds : (line : Text) (l : Logger) → IsHealthy l → Adds l line (printf o line l)
  unfolding printf
  printf-Adds line l h =
      let l' : Logger = record l { stdouts = suc l.stdouts } in
      let (d, a) = write-Adds line l' (record { unbroken = h.unbroken; fits = h.fits }) in
      rw (ok.stdouts_ok l.stdouts) (record { healthy = a.healthy; adds = a.adds })

  log_all-Adds :
      (lines : List Text) (l : Logger) → IsHealthy l → Adds l (concat lines) (log_all o lines l)
  unfolding log_all
  log_all-Adds [] l h = record { healthy = h; adds = sym (append-nil (content l)) }
  log_all-Adds (line ∷ lines) l h =
      let a = printf-Adds line l h in
      let rest = log_all-Adds lines (printf o line l) a.healthy in
      record {
        healthy = rest.healthy;
        adds =
            rest.adds
            ∙ ap (λ x. x ++ concat lines) a.adds
            ∙ append_assoc (content l) line (concat lines);
      }

  -- closing, with what the flush left
  closes :
      (l : Logger)
      → l.broken ≡ false
      → ((close o l).1.file ≡ content l)
        × ((close o l).1.buffer ≡ [])
        × ((close o l).1.is_open ≡ false)
  unfolding close close_flushed
  closes l h = go (flush o l) (flush-empties l h)
    where
      go :
          (r : Result × Logger)
          → (r.0 ≡ done)
            × (r.1.buffer ≡ [])
            × (r.1.broken ≡ false)
            × (r.1.size ≡ l.size)
            × (r.1.file ≡ content l)
          → ((close_flushed o r).1.file ≡ content l)
            × ((close_flushed o r).1.buffer ≡ [])
            × ((close_flushed o r).1.is_open ≡ false)
      go (failed, l') k = cc (k.0)
      go (done, l') (z, b, u, s, f) = (f, b, refl)

-- Where no write fails, whatever was logged by a healthy logger, lines of any lengths: the file and
-- the buffer together hold the lines after what was there, in order, and no more than the size of
-- the buffer is missing from the file; `exit` ends the process with its code, with all of them in
-- the file and the file closed.
pub exit-log_all :
    (o : Outputs) (lines : List Text) (l : Logger) (code : ℕ)
    → IsSound o
    → IsHealthy l
    → (let l' = log_all o lines l in
        (content l' ≡ content l ++ concat lines)
        × (length l'.buffer ≤ l'.size)
        × ((exit o code l').0 ≡ code)
        × ((exit o code l').1.file ≡ content l ++ concat lines)
        × ((exit o code l').1.is_open ≡ false))
unfolding exit
exit-log_all o lines l code ok h =
    let a = log_all-Adds o ok lines l h in
    let (file, empty, shut) = closes o ok (log_all o lines l) a.healthy.unbroken in
    (a.adds, a.healthy.fits, refl, file ∙ a.adds, shut)
