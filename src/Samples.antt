-- ===== src/Samples.antt =====
-- Concrete inputs on which the theorems' hypotheses hold.
mod Data
mod Working
mod Reviewing
mod Deciding
mod Sending
mod Holding
mod Auditing
mod Applying
mod Dispatching
mod Retrying
mod Storing
mod Looping
mod Succeeding
mod Announcing
