-- ===== src/Recv/ContentLaws.antt =====
-- The saving loop against a search for the closing boundary in the whole text.
use cherokee.Base.{
  ℕ, zero, suc, ◌+◌, ◌≤◌, ◌<◌, Bool, true, false, [], ◌++◌, none, some, ◌≡◌, refl, sym, ap, ◌∙◌,
  inl, inr, arith, if◌then◌else◌, length, take, drop, Option-cases, length-drop, take-append-take,
  drop-drop, append_assoc, append-nil, ◌≢◌,
}
use cherokee.Fault.{ok}
use cherokee.Recv.Content.{
  closing, Save, drained, cut_off, ended, write, refused, int_limit, next_save, Saved, save_loop,
  save_content,
}
use cherokee.Text.{Bytes, find}
use cherokee.Text.Find.{shift-zero, find-bounds}
use cherokee.Recv.SaveRound.{
  Writes, Skips, length-closing, Skips-trans, next_save-Writes, next_save-ended, next_save-short,
  next_save-refused,
}

-- The first `upto` bytes of the text are written and the rest is kept, with the boundary in front
-- if the loop has finished, and nowhere in it if not.
pub record SavesUpTo (b buf : Bytes) (upto : ℕ) (r : Saved) : Type 0 where
  pub inside : upto ≤ length buf
  pub skips : Skips b upto buf
  pub kept_is : r.kept ≡ drop upto buf
  pub verdict : find (closing b) r.kept ≡ (if r.finished then some 0 else none)
  pub short : r.finished ≡ false → length r.kept < length b + 8

abbrev pub Saves : Bytes → Bytes → Bytes → Saved → Type 0
Saves b written buf r = (upto : ℕ) × (r.written ≡ written ++ take upto buf) × SavesUpTo b buf upto r

find-none_of_short : (pat s : Bytes) → length s < length pat → find pat s ≡ none
find-none_of_short pat s h = elim (Option-cases (find pat s)) [
  | inl e ↦ e
  | inr (i, e) ↦ absurd (omega (arith, find-bounds pat s i e))
]

Saves-here :
    (b written buf : Bytes) (finished : Bool)
    → find (closing b) buf ≡ (if finished then some 0 else none)
    → (finished ≡ false → length buf < length b + 8)
    → Saves b written buf (record { written = written; kept = buf; finished = finished })
Saves-here b written buf finished v short = (
  0,
  sym (append-nil written),
  record {
    inside = omega arith;
    skips = λ t. sym (shift-zero (find (closing b) (buf ++ t)));
    kept_is = refl;
    verdict = v;
    short = short;
  },
)

Saves-later :
    (b written buf : Bytes) (n : ℕ) (r : Saved)
    → Writes b buf n
    → Saves b (written ++ take n buf) (drop n buf) r
    → Saves b written buf r
Saves-later b written buf n r w (m, e, s) = (
  n + m,
  e ∙ append_assoc written _ _ ∙ ap (◌++◌ written) (take-append-take n m (n + m) buf refl),
  record {
    inside = omega (arith, s.inside, length-drop n buf, w.inside);
    skips = Skips-trans b buf n m (n + m) refl w.skips s.skips;
    kept_is = s.kept_is ∙ drop-drop n m (n + m) buf refl;
    verdict = s.verdict;
    short = s.short;
  },
)

-- The loop ends within its rounds, and leaves what `Saves` says.
abbrev Ends : ℕ → Bytes → Bytes → Bytes → Type 0
Ends f b written buf = (r : Saved) × (save_loop f b written buf ≡ ok r) × Saves b written buf r

save_round :
    (f : ℕ) (b written buf : Bytes)
    → ((n : ℕ) → Writes b buf n → Ends f b (written ++ take n buf) (drop n buf))
    → next_save b buf ≢ refused
    → (s : Save) → next_save b buf ≡ s
    → Ends (suc f) b written buf
unfolding save_loop
save_round f b written buf ih small drained e =
    let short = next_save-short b buf (inl e) in
    let absent = find-none_of_short (closing b) buf (omega (arith, short, length-closing b)) in
    (_, rw (e, save_loop), Saves-here b written buf false absent (λ _. short))
save_round f b written buf ih small cut_off e =
    let short = next_save-short b buf (inr e) in
    let absent = find-none_of_short (closing b) buf (omega (arith, short, length-closing b)) in
    (_, rw (e, save_loop), Saves-here b written buf false absent (λ _. short))
save_round f b written buf ih small ended e =
    (_, rw (e, save_loop), Saves-here b written buf true (next_save-ended b buf e) (λ x. cc))
save_round f b written buf ih small refused e = absurd (small e)
save_round f b written buf ih small (write n) e =
    let w = next_save-Writes b buf n e in
    let (r, q, saves) = ih n w in (r, rw (e, save_loop) q, Saves-later b written buf n r w saves)

save_loop_lem :
    (f : ℕ) (b written buf : Bytes)
    → length buf < f
    → length buf < int_limit
    → length b + 8 < int_limit
    → Ends f b written buf
save_loop_lem zero b written buf h p q = absurd (omega arith)
save_loop_lem (suc f) b written buf h p q =
    save_round f b written buf
      (λ n w.
        save_loop_lem f b (written ++ take n buf) (drop n buf)
          (omega (arith, length-drop n buf, w.some_byte, w.inside))
          (omega (arith, length-drop n buf)) q)
      (next_save-refused b buf p q) (next_save b buf) refl

pub save_content_lem :
    (b buf : Bytes)
    → length buf < int_limit
    → length b + 8 < int_limit
    → (r : Saved) × (save_content b buf ≡ ok r) × Saves b [] buf r
unfolding save_content
save_content_lem b buf p q = save_loop_lem (suc (length buf)) b [] buf (omega arith) p q
