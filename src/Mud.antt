-- ===== src/Mud.antt =====
-- mud.py: the payloads of the MUD protocols. Python's codecs are the parameters `encode` and
-- `decode`; the latter is `none` where Python raises, for bytes that the codec does not know.
pub mod Text
pub mod Msdp
pub mod Mssp
pub mod Codecs
