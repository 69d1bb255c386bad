-- ===== src/Stores.antt =====
-- The services behind the programs, which are not part of this repository: a Redis server, Firestore
-- and MinIO, as records of the operations that the code calls on them, over an abstract world `W`.
pub mod Redis
pub mod Firestore
pub mod Codec
pub mod Minio
