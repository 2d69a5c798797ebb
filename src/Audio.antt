-- ===== src/Audio.antt =====
-- app/audio/ingestion/: the chunks of an answer that is spoken, and when it has ended.
mod Buffer
mod Order
mod Windows
mod Silence
mod Endings
mod Tests
