-- ===== src/Scheduler/Delivery.antt =====
-- The delivery of a document block, `OutboxSender._deliver` of src/researchd/scheduler/outbox_sender.py. The document
-- platform is what its reads answer and whether its first write meets a revision conflict.
pub mod Overwrites
use researchd_agent.Persistence.Outbox.{Payload}
use researchd_agent.Prelude.{
  if◌then◌else◌, ◌==◌, nat_eq, string_eq, any, truthy, Result, ok, raise, String, Bool, not, ◌||◌,
  Option, none, some, List, [], ◌∷◌, option_eq,
}

-- a block's text for each section key
abbrev pub Blocks : Type 0
Blocks = List (String × String)

pub record DocPlatform : Type 0 where
  pub listed : Blocks
  -- what `list_blocks_with_revision` answers, where the platform has it and it does not fail
  pub revised : Option Blocks
  pub write_conflicts : Bool
  pub listed_again : Blocks

-- a write that was sent, and the text that the read before it had found
pub data DocWrite : Type 0 where
  update_block create_block : (key text over : String) → DocWrite

pub data HumanPatchSkip : Type 0 where
  human_patch_skip : HumanPatchSkip

-- `remote.get(k, "") or ""`
unfoldable pub text_at : String → Blocks → String
text_at k [] = ""
text_at k ((j, text) ∷ rest) =
    let later_text = text_at k rest in if j == k then text else later_text

-- `k in remote`
abbrev pub has_block : String → Blocks → Bool
has_block k remote = any (λ b. b.0 == k) remote

abbrev pub read_or : Blocks → Option Blocks → Blocks
read_or listed none = listed
read_or listed (some remote) = remote

abbrev pub last_read : DocPlatform → Blocks
last_read platform = read_or platform.listed platform.revised

abbrev pub text_or_empty : Option String → String
text_or_empty none = ""
text_or_empty (some s) = s

abbrev pub expected_of : Payload → String
expected_of p = text_or_empty p.expected_remote

unfoldable pub write_block : Payload → Blocks → DocWrite
unfolding text_at
write_block p remote =
    if has_block p.section_key remote
    then update_block p.section_key p.text (text_at p.section_key remote)
    else create_block p.section_key p.text (text_at p.section_key remote)

-- `remote2.get(section_key, "") or "" != expected_remote`, as Python groups it
abbrev pub moved_again : Payload → Blocks → Bool
moved_again p remote = truthy (text_at p.section_key remote) || not ("" == expected_of p)

-- the writes that were sent, the refused one first, and the receipt
unfoldable pub deliver_doc_block :
    Payload → DocPlatform → Result HumanPatchSkip (List DocWrite × String)
unfolding write_block text_at
deliver_doc_block p platform =
    if text_at p.section_key (last_read platform) == p.text
    then ok ([], text_or_empty p.content_hash)
    else if not (text_at p.section_key (last_read platform) == expected_of p)
    then raise human_patch_skip
    else if not platform.write_conflicts
    then ok (write_block p (last_read platform) ∷ [], text_or_empty p.content_hash)
    else if moved_again p platform.listed_again
    then raise human_patch_skip
    else ok (
      write_block p (last_read platform) ∷ write_block p platform.listed_again ∷ [],
      text_or_empty p.content_hash,
    )
