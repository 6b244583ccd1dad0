-- ===== src/Examples.antt =====
-- Runs and theorems at concrete data, over runtimes written for them.
mod Fixture
mod Messages
mod Spawning
mod Network
mod TimedOut
mod Starting
mod Post
mod Numbers
mod Delivered
mod Attributed
mod Transferred
mod Named
mod Echo
mod Sorted
mod Clients
mod Echoed
mod Watched
mod Hall
mod Failed
