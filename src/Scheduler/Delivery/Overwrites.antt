-- ===== src/Scheduler/Delivery/Overwrites.antt =====
-- What a delivery may overwrite.
use mathlib.Core.Bool.{false≢true}
use text.Mathlib.TextPositions.{eq_refl}
use researchd_agent.Persistence.Outbox.{Payload}
use researchd_agent.Prelude.{
  Bool-cases, ◌==◌, nat_eq, string_eq, truthy, ok, raise, String, ◌≡◌, refl, sym, ap, subst, ◌∙◌,
  inl, inr, true, false, List, eq_iff, All, ok-injective, raise-ne-ok, option_eq,
}
use researchd_agent.Scheduler.Delivery.{
  Blocks, DocPlatform, DocWrite, text_at, has_block, last_read, expected_of, write_block,
  moved_again, deliver_doc_block, update_block, create_block, human_patch_skip,
}

abbrev pub overwritten : DocWrite → String
overwritten (update_block key text over) = over
overwritten (create_block key text over) = over

abbrev pub sent_text : DocWrite → String
sent_text (update_block key text over) = text
sent_text (create_block key text over) = text

write_block-over :
    (p : Payload) (remote : Blocks)
    → (overwritten (write_block p remote) ≡ text_at p.section_key remote)
      × (sent_text (write_block p remote) ≡ p.text)
unfolding write_block
write_block-over p remote = elim (Bool-cases (has_block p.section_key remote)) [
  | inl y ↦ rw y (refl, refl)
  | inr n ↦ rw n (refl, refl)
]

-- what a write must have found, and what it sends
abbrev Safe : Payload → DocWrite → Type 0
Safe p w = (overwritten w ≡ expected_of p) × (sent_text w ≡ p.text)

not_truthy : (s : String) → truthy s ≡ false → s ≡ ""
not_truthy String.[] h = refl
not_truthy (String.◌∷◌ c s) h = absurd (false≢true (sym h))

not_moved :
    (p : Payload) (remote : Blocks)
    → moved_again p remote ≡ false
    → text_at p.section_key remote ≡ expected_of p
not_moved p remote h = elim (Bool-cases (truthy (text_at p.section_key remote))) [
  | inl y ↦ absurd (false≢true (sym h ∙ rw y refl))
  | inr n ↦ elim (Bool-cases ("" == expected_of p)) [
    | inl e ↦ not_truthy (text_at p.section_key remote) n ∙ (eq_iff "" (expected_of p)).0 e
    | inr m ↦ absurd (false≢true (sym h ∙ rw (n, m) refl))
  ]
]

write-Safe :
    (p : Payload) (remote : Blocks)
    → text_at p.section_key remote ≡ expected_of p
    → Safe p (write_block p remote)
write-Safe p remote h = let (over, sent) = write_block-over p remote in (over ∙ h, sent)

-- A delivery that returns has sent a write only where the read before it had found the text that was expected
-- when the row was queued, and it has sent the queued text.
pub overwrites_only_expected :
    (p : Payload) (platform : DocPlatform) (ws : List DocWrite) (receipt : String)
    → deliver_doc_block p platform ≡ ok (ws, receipt)
    → All (λ w. (overwritten w ≡ expected_of p) × (sent_text w ≡ p.text)) ws
unfolding deliver_doc_block
overwrites_only_expected p platform ws receipt h =
    elim (Bool-cases (text_at p.section_key (last_read platform) == p.text)) [
      | inl y ↦ subst (λ l. All (Safe p) l) (ap (λ z. z.0) (ok-injective (rw y at h))) tt
      | inr n ↦ elim (Bool-cases (text_at p.section_key (last_read platform) == expected_of p)) [
        | inr m ↦ absurd (raise-ne-ok (rw (n, m) at h))
        | inl e ↦
            let found = (eq_iff (text_at p.section_key (last_read platform)) (expected_of p)).0 e in
            elim (Bool-cases platform.write_conflicts) [
              | inr quiet ↦
                  subst (λ l. All (Safe p) l) (ap (λ z. z.0) (ok-injective (rw (n, e, quiet) at h)))
                    (write-Safe p (last_read platform) found, tt)
              | inl clash ↦ elim (Bool-cases (moved_again p platform.listed_again)) [
                | inl y ↦ absurd (raise-ne-ok (rw (n, e, clash, y) at h))
                | inr q ↦
                    subst (λ l. All (Safe p) l)
                      (ap (λ z. z.0) (ok-injective (rw (n, e, clash, q) at h)))
                      (
                        write-Safe p (last_read platform) found,
                        (
                          write-Safe p platform.listed_again (not_moved p platform.listed_again q),
                          tt,
                        ),
                      )
              ]
            ]
      ]
    ]

-- A delivery finds the text that was expected, which is neither empty nor the queued text, and its write meets a
-- revision conflict. It is then skipped as if a human had edited the block, although the second read finds the
-- expected text unchanged.
pub unchanged_block_is_skipped :
    (p : Payload) (platform : DocPlatform)
    → text_at p.section_key (last_read platform) ≡ expected_of p
    → truthy (expected_of p) ≡ true
    → (expected_of p == p.text) ≡ false
    → platform.write_conflicts ≡ true
    → text_at p.section_key platform.listed_again ≡ expected_of p
    → deliver_doc_block p platform ≡ raise human_patch_skip
unfolding deliver_doc_block
unchanged_block_is_skipped p platform first some_text differs clash second =
    rw (first, differs, eq_refl (expected_of p), clash, second, some_text) refl
