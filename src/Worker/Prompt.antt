-- ===== src/Worker/Prompt.antt =====
-- The system prompt: worker/internal/handler/prompt.go
use taffy_assistant.Base.{
  String, Option, none, some, ℤ, itoa, List, [], ◌∷◌, ◌==◌, ◌⧺◌, if◌then◌else◌,
}
use taffy_assistant.Protocol.{DeviceContext, SceneContext}

abbrev pub number_part : String → Option ℤ → String → String
number_part label none unit = ""
number_part label (some n) unit = label ⧺ itoa n ⧺ unit

-- `writeDeviceLine`: the line that is written for a device.
unfoldable pub device_line : DeviceContext → String
device_line d =
    "- "
    ⧺ d.device_id
    ⧺ " | "
    ⧺ d.room
    ⧺ " "
    ⧺ d.name
    ⧺ " ("
    ⧺ d.type
    ⧺ ") 状态:"
    ⧺ (if d.power then "开启" else "关闭")
    ⧺ number_part " 亮度:" d.brightness "%"
    ⧺ number_part " 温度:" d.temperature "°C"
    ⧺ (if d.mode == "" then "" else " 模式:" ⧺ d.mode)
    ⧺ number_part " 开合度:" d.position "%"
    ⧺ "\n"

unfoldable pub device_lines : List DeviceContext → String
unfolding device_line
device_lines [] = ""
device_lines (d ∷ ds) = device_line d ⧺ device_lines ds

unfoldable pub scene_line : SceneContext → String
scene_line s = "- 场景ID:" ⧺ itoa s.scene_id ⧺ " " ⧺ s.name ⧺ "\n"

unfoldable pub scene_lines : List SceneContext → String
unfolding scene_line
scene_lines [] = ""
scene_lines (s ∷ ss) = scene_line s ⧺ scene_lines ss

abbrev pub device_part : List DeviceContext → String
device_part [] = "（暂无设备）\n"
device_part (d ∷ ds) = device_lines (d ∷ ds)

abbrev pub scene_part : List SceneContext → String
scene_part [] = ""
scene_part (s ∷ ss) = "\n## 用户预设场景\n" ⧺ scene_lines (s ∷ ss)

abbrev pub default_prompt : String
default_prompt = "你是「小菲」，一个智能家居语音助手。请用中文简短回答用户的问题。"

abbrev pub rules : String
rules =
    "\n## 重要规则\n" ⧺ "1. 当用户要求控制设备时，你必须调用 control_device 函数，不要在文本回复中描述操作。\n"
    ⧺ "2. device_id 必须从上面的设备列表中选择，不能自行编造。\n" ⧺ "3. 调用函数后，等待执行结果再回复用户。如果执行成功，简短确认；如果失败，告知用户。\n"
    ⧺ "4. 如果用户的意图不是控制设备，直接文字回复即可，不需要调用任何函数。\n" ⧺ "5. 回复要简洁自然，像一个语音助手在说话。\n"

-- `BuildSystemPrompt`.
unfoldable pub build_system_prompt : String → List DeviceContext → List SceneContext → String
unfolding device_lines scene_lines
build_system_prompt base devices scenes =
    (if base == "" then default_prompt else base)
    ⧺ "\n\n## 当前用户的设备列表\n"
    ⧺ device_part devices
    ⧺ scene_part scenes
    ⧺ rules
