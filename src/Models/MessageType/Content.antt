-- ===== src/Models/MessageType/Content.antt =====
-- models/message_type.go: the constants of the message types, from text to unknown.
use go_wsc.Base.{String}

abbrev pub text : String
text = "text"

abbrev pub image : String
image = "image"

abbrev pub file : String
file = "file"

abbrev pub audio : String
audio = "audio"

abbrev pub video : String
video = "video"

abbrev pub system : String
system = "system"

abbrev pub notice : String
notice = "notice"

abbrev pub event : String
event = "event"

abbrev pub ack : String
ack = "ack"

abbrev pub location : String
location = "location"

abbrev pub card : String
card = "card"

abbrev pub emoji : String
emoji = "emoji"

abbrev pub sticker : String
sticker = "sticker"

abbrev pub link : String
link = "link"

abbrev pub quote : String
quote = "quote"

abbrev pub forward : String
forward = "forward"

abbrev pub command : String
command = "command"

abbrev pub markdown : String
markdown = "markdown"

abbrev pub rich_text : String
rich_text = "rich_text"

abbrev pub code : String
code = "code"

abbrev pub json : String
json = "json"

abbrev pub xml : String
xml = "xml"

abbrev pub binary : String
binary = "binary"

abbrev pub voice : String
voice = "voice"

abbrev pub gif : String
gif = "gif"

abbrev pub document : String
document = "document"

abbrev pub spreadsheet : String
spreadsheet = "spreadsheet"

abbrev pub presentation : String
presentation = "presentation"

abbrev pub contact : String
contact = "contact"

abbrev pub calendar : String
calendar = "calendar"

abbrev pub task : String
task = "task"

abbrev pub poll : String
poll = "poll"

abbrev pub form : String
form = "form"

abbrev pub payment : String
payment = "payment"

abbrev pub order : String
order = "order"

abbrev pub product : String
product = "product"

abbrev pub invite : String
invite = "invite"

abbrev pub announcement : String
announcement = "announcement"

abbrev pub alert : String
alert = "alert"

abbrev pub error : String
error = "error"

abbrev pub info : String
info = "info"

abbrev pub success : String
success = "success"

abbrev pub warning : String
warning = "warning"

abbrev pub heartbeat : String
heartbeat = "heartbeat"

abbrev pub ping : String
ping = "ping"

abbrev pub pong : String
pong = "pong"

abbrev pub typing : String
typing = "typing"

abbrev pub read : String
read = "read"

abbrev pub delivered : String
delivered = "delivered"

abbrev pub recall : String
recall = "recall"

abbrev pub edit : String
edit = "edit"

abbrev pub reaction : String
reaction = "reaction"

abbrev pub thread : String
thread = "thread"

abbrev pub reply : String
reply = "reply"

abbrev pub mention : String
mention = "mention"

abbrev pub custom : String
custom = "custom"

abbrev pub unknown : String
unknown = "unknown"
